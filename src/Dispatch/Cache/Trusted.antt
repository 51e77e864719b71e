-- ===== src/Dispatch/Cache/Trusted.antt =====
-- What a request has to bring to pass `authorize_request` of dispatch.rs.
use gpui_agent.Base.{
  ◌≡◌, ◌↔◌, refl, ℕ, String, true, false, Option, none, some, List, ◌==◌, nat_eq, length, arith,
}
use gpui_agent.Base.Text.{codes}
use gpui_agent.Error.{Error, ok, ensure, ◌>>◌}
use gpui_agent.Hex.{nonce_len, hmac_verify}
use gpui_agent.Tree.Fingerprint.{as_bytes}
use gpui_agent.Protocol.{Request, protocol_version}
use gpui_agent.Dispatch.Cache.{
  Security, sends_token, full_nonce, check_auth, check_token, authorize_request,
}

module _ (sec : Security) (req : Request) where
  -- What a request has to bring when the deployment expects a token.
  pub record Proven (expected : String) : Type 0 where
    pub silent : sends_token req ≡ false
    pub nonce : List ℕ
    pub issued : sec.session_nonce ≡ some nonce
    pub whole : length nonce ≡ nonce_len
    pub auth : String
    pub sent : req.auth ≡ some auth
    pub valid : hmac_verify sec.mac (as_bytes expected) nonce (codes auth) ≡ true

  abbrev pub Trusted : Option String → Type 0
  Trusted none = req.v ≡ protocol_version
  Trusted (some expected) = (req.v ≡ protocol_version) × Proven expected

  nonce-whole :
      (o : Option (List ℕ)) (n : List ℕ)
      → full_nonce o ≡ some n
      → (o ≡ some n) × (length n ≡ nonce_len)
  nonce-whole none n h = cc
  nonce-whole (some m) n h = (ground (arith, h), ground (arith, h))

  whole-nonce :
      (o : Option (List ℕ)) (n : List ℕ) → o ≡ some n → length n ≡ nonce_len → full_nonce o ≡ some n
  whole-nonce none n h g = cc
  whole-nonce (some m) n h g = ground (arith, h, g)

  auth-proven :
      (expected : String) (nonce : Option (List ℕ)) (auth : Option String)
      → (check_auth sec.mac expected nonce auth ≡ ok tt) ↔ (
          (n : List ℕ) × (a : String) × (nonce ≡ some n)
          × (auth ≡ some a)
          × (hmac_verify sec.mac (as_bytes expected) n (codes a) ≡ true))
  auth-proven expected none auth = (λ h. cc, λ (n, a, e, g, v). cc)
  auth-proven expected (some n) none = (λ h. cc, λ (m, a, e, g, v). cc)
  auth-proven expected (some n) (some a) =
      (λ h. (n, a, refl, refl, ground (arith, h)), λ (m, b, e, g, v). ground (arith, e, g, v))

  token-Proven :
      (expected : String) → (check_token sec req (some expected) ≡ ok tt) ↔ Proven expected
  token-Proven expected = (
    λ h.
        let rest = auth-proven expected (full_nonce sec.session_nonce) req.auth in
        let (n, a, e, g, v) = rest.0 (ground (arith, h)) in
        let (issued, whole) = nonce-whole sec.session_nonce n e in
        record {
          silent = ground (arith, h);
          nonce = n;
          issued = issued;
          whole = whole;
          auth = a;
          sent = g;
          valid = v;
        },
    λ p.
        let rest = auth-proven expected (full_nonce sec.session_nonce) req.auth in
        let full = whole-nonce sec.session_nonce p.nonce p.issued p.whole in
        let passed = rest.1 (p.nonce, p.auth, full, p.sent, p.valid) in
        ground (arith, p.silent, passed),
  )

  version-then :
      (o : Option String)
      → ((ensure (req.v == protocol_version) (Error.unsupported_version req.v)
            >> check_token sec req o)
          ≡ ok tt)
        ↔ Trusted o
  version-then none = (λ h. ground (arith, h), λ h. ground (arith, h))
  version-then (some expected) = (
    λ h.
        let passed : check_token sec req (some expected) ≡ ok tt = ground (arith, h) in
        (ground (arith, h), (token-Proven expected).0 passed),
    λ (e, p). let passed = (token-Proven expected).1 p in ground (arith, e, passed),
  )

  -- `authorize_request` lets a request pass exactly when it speaks this version of the protocol and,
  -- if a token is expected, sends no token, is in a session with a nonce of the full length, and
  -- carries a MAC of that nonce that verifies under the expected token.
  pub authorize_request-Trusted : (authorize_request sec req ≡ ok tt) ↔ Trusted sec.expected_token
  unfolding authorize_request
  authorize_request-Trusted = version-then sec.expected_token
