-- ===== src/Cmd/Servers.antt =====
-- cmd/main.go: the TLS options of the metrics server and of the webhook server.
use eirenyx.Base.{String, Bool-cases, ◌≡◌, refl, inl, inr, List, [], ◌∷◌, if◌then◌else◌}
use eirenyx.Base.Text.{is_blank}
use eirenyx.Cmd.{Runtime, Flags, tls_opts, webhook_server_options, metrics_server_options}

-- A server applies its options one after the other.
pub apply_options : {A : Type 0} → List (A → A) → A → A
apply_options [] c = c
apply_options (f ∷ fs) c = apply_options fs (f c)

-- `tls.Config`: the protocols that were set are the ones that are offered.
pub record TlsLaws (R : Runtime) : Type 0 where
  pub next_protos : R.Tls → List String
  pub set_read :
      (protos : List String) (c : R.Tls) → next_protos (R.set_next_protos protos c) ≡ protos

module _ (R : Runtime) (laws : TlsLaws R) where
  -- What a server with these options offers, given what its configuration offered before.
  abbrev pub Offers : List (R.Tls → R.Tls) → Flags → R.Tls → Type 0
  Offers options flags c =
      laws.next_protos (apply_options options c)
      ≡ (if flags.enable_http2 then laws.next_protos c else "http/1.1" ∷ [])

  tls_opts-Offers : (flags : Flags) (c : R.Tls) → Offers (tls_opts R flags) flags c
  unfolding apply_options tls_opts
  tls_opts-Offers flags c = elim (Bool-cases flags.enable_http2) [
    | inl on ↦ rw on refl
    | inr off ↦ rw off (laws.set_read ("http/1.1" ∷ []) c)
  ]

  -- Unless the flag `enable-http2` is set, the metrics server and the webhook server both offer
  -- HTTP/1.1 and nothing else, and if it is set they offer what their configuration did, whatever the
  -- certificates; and the metrics server asks for authentication exactly if it is served securely.
  pub servers-Offers :
      (flags : Flags) (c : R.Tls)
      → Offers (metrics_server_options R flags).tls_opts flags c
        × Offers (webhook_server_options R flags).tls_opts flags c
        × ((metrics_server_options R flags).filtered
            ≡ (metrics_server_options R flags).secure_serving)
  unfolding metrics_server_options webhook_server_options
  servers-Offers flags c =
      let offers = tls_opts-Offers flags c in
      elim (Bool-cases (is_blank flags.metrics_cert_path)) [
        | inl m ↦ elim (Bool-cases (is_blank flags.webhook_cert_path)) [
          | inl w ↦ rw (m, w) (offers, offers, refl)
          | inr w ↦ rw (m, w) (offers, offers, refl)
        ]
        | inr m ↦ elim (Bool-cases (is_blank flags.webhook_cert_path)) [
          | inl w ↦ rw (m, w) (offers, offers, refl)
          | inr w ↦ rw (m, w) (offers, offers, refl)
        ]
      ]
