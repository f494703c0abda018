-- ===== src/Webhooks.antt =====
-- `src/kai/cockpit/connections/webhooks.py` and `src/kai/cockpit/routes/connections/webhooks.py`: the
-- ingress of the providers' webhooks, from the check of the signature to the forwarding to a bot.
pub mod Nonces
pub mod Resend
pub mod Ingress
pub mod Samples
