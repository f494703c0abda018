-- ===== src/Deployments/Ports.antt =====
-- The control port of a new bot: the first free one of the range.
use meetkai.Common.{
  ℕ, zero, suc, ◌+◌, ◌≤◌, ◌<◌, ◌≡◌, inl, inr, true, false, none, some, List, arith, ◌==◌,
  Bool-cases, Option-cases,
}
use meetkai.Common.Try.{returned, raised}
use meetkai.Deployments.{Deployment, used_ports, is_used, first_free, allocate_control_port}

-- The first port of `left` ports from `start` that is not used.
record IsFirstFree (used : List ℕ) (left start port : ℕ) : Type 0 where
  from : start ≤ port
  below : port < start + left
  free : is_used port used ≡ false
  earlier : (p : ℕ) → start ≤ p → p < port → is_used p used ≡ true

first_free-IsFirstFree :
    (used : List ℕ) (left start port : ℕ)
    → first_free used left start ≡ some port
    → IsFirstFree used left start port
unfolding first_free
first_free-IsFirstFree used zero start port h = absurd (cc h)
first_free-IsFirstFree used (suc left) start port h = elim (Bool-cases (is_used start used)) [
  | inr free ↦
      let same : start ≡ port = cc (rw (free, first_free) at h) in
      rw (← same) (record {
        from = omega arith;
        below = omega arith;
        free = free;
        earlier = λ p a b. absurd (omega (arith, a, b));
      })
  | inl taken ↦
      let later = first_free-IsFirstFree used left (start + 1) port (rw (taken, first_free) at h) in
      record {
        from = omega (arith, later.from);
        below = omega (arith, later.below);
        free = later.free;
        earlier = λ p a b. elim (Bool-cases (p == start)) [
          | inl here ↦ let same : p ≡ start = ground (arith, here) in rw same taken
          | inr after ↦ later.earlier p (ground (arith, after, a)) b
        ];
      }
]

-- The port that is allocated is between 8200 and 8299, no running deployment has it, and every smaller
-- port of the range is in use.
pub allocate_control_port-IsFree :
    (rows : List Deployment) (port : ℕ)
    → allocate_control_port rows ≡ returned port
    → (8200 ≤ port)
      × (port < 8300)
      × (is_used port (used_ports rows) ≡ false)
      × ((p : ℕ) → 8200 ≤ p → p < port → is_used p (used_ports rows) ≡ true)
unfolding allocate_control_port
allocate_control_port-IsFree rows port h =
    elim (Option-cases (first_free (used_ports rows) 100 8200)) [
      | inl full ↦ absurd (cc (rw (full, allocate_control_port) at h))
      | inr (p, found) ↦
          let same : p ≡ port = cc (rw (found, allocate_control_port) at h) in
          let r = first_free-IsFirstFree (used_ports rows) 100 8200 p found in
          rw (← same) (r.from, r.below, r.free, r.earlier)
    ]

first_free-full :
    (used : List ℕ) (left start p : ℕ)
    → first_free used left start ≡ none
    → start ≤ p
    → p < start + left
    → is_used p used ≡ true
unfolding first_free
first_free-full used zero start p h a b = absurd (omega (arith, a, b))
first_free-full used (suc left) start p h a b = elim (Bool-cases (is_used start used)) [
  | inr free ↦ absurd (cc (rw (free, first_free) at h))
  | inl taken ↦ elim (Bool-cases (p == start)) [
    | inl here ↦ let same : p ≡ start = ground (arith, here) in rw same taken
    | inr after ↦
        first_free-full used left (start + 1) p (rw (taken, first_free) at h)
          (ground (arith, after, a)) (omega (arith, b))
  ]
]

-- The allocation fails only if all 100 ports of the range are in use.
pub allocate_control_port-full :
    (rows : List Deployment) (p : ℕ)
    → allocate_control_port rows ≡ raised
    → 8200 ≤ p
    → p < 8300
    → is_used p (used_ports rows) ≡ true
unfolding allocate_control_port
allocate_control_port-full rows p h a b =
    elim (Option-cases (first_free (used_ports rows) 100 8200)) [
      | inl full ↦ first_free-full (used_ports rows) 100 8200 p full a b
      | inr (q, found) ↦ absurd (cc (rw (found, allocate_control_port) at h))
    ]
