-- ===== src/EvilListener/Serve/Composed.antt =====
-- tools/https_e2e/evil_listener.py: how a run of `serve_one` ends.
use c64_https.Common.{
  ℕ, zero, suc, Bool, true, false, Option, none, some, List, [], ◌∷◌, ◌++◌, replicate, ◌==◌,
  if_both, Result, ok, raised, Fault, ◌≡◌, ◌⊎◌, inl, inr, Bool-cases, refl, ap, ◌∙◌, arith,
}
use c64_https.HardwareChecks.Leak.{is_in}
use c64_https.EvilListener.{ct_change_cipher_spec, ct_alert, ct_application_data}
use c64_https.EvilListener.Primitives.{Primitives}
use mathlib.Core.Path.{subst}
use c64_https.EvilListener.Schedule.Derived.{
  expanded_label, extracted, handshake_secret_of, c_hs_of, s_hs_of, s_ap_of, verify_data_of,
  hkdf_extract-extracted, hkdf_expand_label-expanded_label, derive_secret-expanded_label,
}
use c64_https.EvilListener.Keys.{TrafficKeys, new_keys, encrypt, decrypt}
use c64_https.EvilListener.Keys.Sealed.{new_keys-ok}
use c64_https.EvilListener.Reader.{Received, read_record}
use c64_https.EvilListener.Messages.{Server, finished_label}
use c64_https.EvilListener.Flight.{Said}
use c64_https.EvilListener.Client.{
  reader_size, end_of_head, content_type, gathered, collected, collect_request, watch_client,
}
use c64_https.EvilListener.Client.Smaller.{watch_client-Decides}
use c64_https.EvilListener.Serving.{Progress, Serving, chained}
use c64_https.EvilListener.Serve.{
  Secrets, response, send_response, respond, serve_request, conclude, derived_label, c_ap_label,
  s_ap_label,
}

abbrev verdict : Progress → Option Bool
verdict run = run.result.client_accepted_finished

-- A statement that leaves the verdict alone, and sends nothing.
abbrev Keeps {ℓ} : {A : Type ℓ} → Serving A → Type 0
Keeps m = (run : Progress) → (verdict (m run).1 ≡ verdict run) × ((m run).1.sent ≡ run.sent)

call-Keeps {ℓ₁ ℓ₂} :
    {A : Type ℓ₁} {B : Type ℓ₂} (r : Result A) (f : A → Serving B)
    → ((a : A) → Keeps (f a))
    → Keeps (λ run. chained (r, run) f)
call-Keeps (ok a) f h run = h a run
call-Keeps (raised fault) f h run = (refl, refl)

module _ (p : Primitives) where
  -- A run that leaves the verdict alone, as one statement of it does.
  abbrev KeptBy {ℓ} : {A : Type ℓ} → Progress → Serving A → Type 0
  KeptBy run m = (verdict (m run).1 ≡ verdict run) × ((m run).1.sent ≡ run.sent)

  collected-Keeps :
      (again : TrafficKeys → List ℕ → Serving (List ℕ)) (keys : TrafficKeys) (req : List ℕ)
      (got : Result (Option (List ℕ)))
      → ((keys : TrafficKeys) (req : List ℕ) → Keeps (again keys req))
      → Keeps (collected p again keys req got)
  collected-Keeps again keys req (raised fault) h run = (refl, refl)
  collected-Keeps again keys req (ok none) h run = (refl, refl)
  collected-Keeps again keys req (ok (some rec)) h run =
      if_both {A = Serving (List ℕ)} (KeptBy run) (content_type rec == ct_change_cipher_spec) _ _
        (h keys req run)
        (call-Keeps (decrypt p keys rec) (gathered p again req)
          (λ got run.
            if_both {A = Serving (List ℕ)} (KeptBy run) (got.0.0 == ct_application_data) _ _
              (h got.1 (req ++ got.0.1) run)
              (if_both {A = Serving (List ℕ)} (KeptBy run) (got.0.0 == ct_alert) _ _ (refl, refl)
                (h got.1 req run)))
          run)

  collect_request-Keeps :
      (fuel : ℕ) (keys : TrafficKeys) (req : List ℕ) → Keeps (collect_request p fuel keys req)
  unfolding collect_request
  collect_request-Keeps zero keys req run = (refl, refl)
  collect_request-Keeps (suc fuel) keys req run = elim (Bool-cases (is_in end_of_head req)) [
    | inl e ↦ rw (collect_request, e) (refl, refl)
    | inr e ↦
        let got : Received = read_record run.reader in
        rw (collect_request, e)
          (collected-Keeps (collect_request p fuel) keys req got.0 (collect_request-Keeps fuel)
            (record run { reader = got.1 }))
  ]

  -- How the server ends with a client that it found to have accepted, `sent` being sent before: it raises and
  -- has sent nothing more, or it has sent its response in one record under its keys for application data.
  abbrev pub Responds : Server → TrafficKeys → List (List ℕ) → Result (Unit {0}) × Progress → Type 0
  Responds s keys sent ends =
      ((why : Fault) × (ends.0 ≡ raised why) × (ends.1.sent ≡ sent))
      ⊎ ((rec : List ℕ) × (next : TrafficKeys) × (encrypt p keys (response s.body ++ (23 ∷ []))
            ≡ ok (rec, next))
          × (ends.0 ≡ ok tt)
          × (ends.1.sent ≡ sent ++ (rec ∷ [])))

  sealed-Responds :
      (s : Server) (keys : TrafficKeys) (run : Progress) (sealed : Result (List ℕ × TrafficKeys))
      → encrypt p keys (response s.body ++ (23 ∷ [])) ≡ sealed
      → (verdict (chained (sealed, run) (send_response p)).1 ≡ verdict run)
        × Responds s keys run.sent (chained (sealed, run) (send_response p))
  sealed-Responds s keys run (raised why) e = (refl, inl (why, refl, refl))
  sealed-Responds s keys run (ok (rec, next)) e = (refl, inr (rec, next, e, refl, refl))

  requested-Responds :
      (s : Server) (keys : TrafficKeys) (run : Progress) (got : Result (List ℕ) × Progress)
      → (verdict got.1 ≡ verdict run) × (got.1.sent ≡ run.sent)
      → (verdict (chained got (respond p s keys)).1 ≡ verdict run)
        × Responds s keys run.sent (chained got (respond p s keys))
  requested-Responds s keys run (raised why, run1) k = (k.0, inl (why, refl, k.1))
  requested-Responds s keys run (ok req, run1) k =
      let noted : Progress = record run1 { result = record run1.result { request = some req } } in
      let (v, ends) =
        sealed-Responds s keys noted (encrypt p keys (response s.body ++ (23 ∷ []))) refl in
      (v ∙ k.0, subst (λ t. Responds s keys t (respond p s keys req run1)) k.1 ends)

  serve_request-Responds :
      (s : Server) (c_ap s_ap : List ℕ) (run : Progress)
      → (keys : TrafficKeys) × (new_keys p s_ap ≡ ok keys)
        × (verdict (serve_request p s c_ap s_ap run).1 ≡ verdict run)
        × Responds s keys run.sent (serve_request p s c_ap s_ap run)
  unfolding serve_request
  serve_request-Responds s c_ap s_ap run =
      let (c_app, made, _, _) = new_keys-ok p c_ap in
      let (s_app, made', _, _) = new_keys-ok p s_ap in
      let ends =
        requested-Responds s s_app run
          (collect_request p (suc (reader_size run.reader)) c_app [] run)
          (collect_request-Keeps (suc (reader_size run.reader)) c_app [] run) in
      (s_app, made', rw (made, made') ends.0, rw (made, made') ends.1)

  -- What the server does after its verdict.
  abbrev pub Reacts : Server → List ℕ → Bool → List (List ℕ) → Result (Unit {0}) × Progress → Type 0
  Reacts s s_ap accepted sent ends =
      ((accepted ≡ false) × (ends.0 ≡ ok tt) × (ends.1.sent ≡ sent))
      ⊎ ((accepted ≡ true)
          × (keys : TrafficKeys) × (new_keys p s_ap ≡ ok keys)
          × Responds s keys sent ends)

  abbrev pub secrets_of : List ℕ → List ℕ → Secrets
  secrets_of shared transcript = record {
    handshake_secret = handshake_secret_of p shared;
    c_hs = c_hs_of p shared transcript;
    s_hs = s_hs_of p shared transcript;
  }

  -- After the flight the server watches the client with the verify_data of the whole transcript, leaves the
  -- verdict that this gives, and reacts to it under the secrets of the transcript.
  pub conclude_lem :
      (s : Server) (shared transcript whole : List ℕ) (c_keys : TrafficKeys) (said : Said)
      (run : Progress)
      → said.transcript ++ said.fin ≡ whole
      → (accepted : Bool) × (run1 : Progress) × (watch_client p c_keys
            (verify_data_of p (c_hs_of p shared transcript) whole)
            run
          ≡ (ok accepted, run1))
        × (verdict (conclude p s (secrets_of shared transcript) c_keys said run).1 ≡ some accepted)
        × Reacts s
            (s_ap_of p shared whole)
            accepted
            run.sent
            (conclude p s (secrets_of shared transcript) c_keys said run)
  unfolding conclude
  conclude_lem s shared transcript whole c_keys said run said_all =
      let secret : List ℕ = handshake_secret_of p shared in
      let derived = derive_secret-expanded_label p secret derived_label [] (omega arith) in
      let master = hkdf_extract-extracted p secret (replicate 32 0) in
      let main : List ℕ = extracted p secret (replicate 32 0) in
      let c_ap = derive_secret-expanded_label p main c_ap_label whole (omega arith) in
      let s_ap = derive_secret-expanded_label p main s_ap_label whole (omega arith) in
      let key =
        hkdf_expand_label-expanded_label p (c_hs_of p shared transcript) finished_label []
          (omega arith) (omega arith) in
      let (accepted, run1, watched, v, silent, _) =
        watch_client-Decides p c_keys (verify_data_of p (c_hs_of p shared transcript) whole) run in
      elim (Bool-cases accepted) [
        | inl a ↦
            let app : List ℕ = expanded_label p main c_ap_label (p.sha256 whole) in
            let (keys, made, kept, responds) =
              serve_request-Responds s app (s_ap_of p shared whole) run1 in
            let ends : Result (Unit {0}) × Progress =
              serve_request p s app (s_ap_of p shared whole) run1 in
            let same : conclude p s (secrets_of shared transcript) c_keys said run ≡ ends =
              rw (conclude, said_all, derived, master, c_ap, s_ap, key, watched, a) refl in
            (
              accepted,
              run1,
              watched,
              ap (λ e. verdict e.1) same ∙ kept ∙ v,
              inr (a, keys, made, rw same (subst (λ t. Responds s keys t ends) silent responds)),
            )
        | inr a ↦
            let same : conclude p s (secrets_of shared transcript) c_keys said run ≡ (ok tt, run1) =
              rw (conclude, said_all, derived, master, c_ap, s_ap, key, watched, a) refl in
            (
              accepted,
              run1,
              watched,
              ap (λ e. verdict e.1) same ∙ v,
              inl (a, ap (λ e. e.0) same, ap (λ e. e.1.sent) same ∙ silent),
            )
      ]
