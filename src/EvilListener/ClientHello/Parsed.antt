-- ===== src/EvilListener/ClientHello/Parsed.antt =====
-- tools/https_e2e/evil_listener.py: `parse_client_hello` reads back what a ClientHello offers.
use c64_https.Common.{
  ℕ, suc, ◌+◌, ◌/◌, ◌≤◌, ◌<◌, true, List, ◌∷◌, ◌++◌, length, length-append, drop, take, slice,
  take-append_length, drop-append_length, All, any, ◌==◌, ok, ◌≡◌, ◌≢◌, refl, ap, ◌∙◌, arith,
}
use c64_https.Common.Bytes.{index_here}
use c64_https.HardwareChecks.Positions.{slice_here, drop_more, length_here}
use c64_https.HardwareChecks.Names.Hello.{
  two, Extension, extension_bytes, extensions_bytes, length-extensions_bytes,
}
use c64_https.EvilListener.{handshake, hs_client_hello, group_x25519, tls_chacha20_poly1305_sha256}
use c64_https.EvilListener.ClientHello.{parse_client_hello}
use c64_https.EvilListener.ClientHello.Entries.{
  suites_bytes, read16_here, suites_from-suites_bytes, length-suites_bytes,
}
use c64_https.EvilListener.ClientHello.Offered.{
  Shares, key_share_extension, IsOther, extensions_from-key_share,
}

-- What a ClientHello says, in the order of its bytes.
pub record Offer : Type 0 where
  pub version : List ℕ
  pub random : List ℕ
  pub session : List ℕ
  pub suites : List ℕ
  pub compression : List ℕ
  pub before : List Extension
  pub shares : Shares
  pub after : List Extension

abbrev pub offer_extensions : Offer → List ℕ
offer_extensions o =
    extensions_bytes o.before
    ++ (extension_bytes (key_share_extension o.shares) ++ extensions_bytes o.after)

abbrev pub after_suites : Offer → List ℕ
after_suites o =
    length o.compression
    ∷ (o.compression ++ (two (length (offer_extensions o)) ++ offer_extensions o))

abbrev pub after_random : Offer → List ℕ
after_random o =
    length o.session
    ∷ (o.session
        ++ (two (length (suites_bytes o.suites)) ++ (suites_bytes o.suites ++ after_suites o)))

-- The message, with its type and the length of its body.
abbrev pub offer_bytes : Offer → List ℕ
offer_bytes o = handshake hs_client_hello (o.version ++ (o.random ++ after_random o))

-- What the server needs of it: the suite that it speaks, and one key_share with a share for x25519.
abbrev pub IsOffer : Offer → Type 0
IsOffer o =
    (length o.version ≡ 2)
    × (length o.random ≡ 32)
    × (any (λ s. s == tls_chacha20_poly1305_sha256) o.suites ≡ true)
    × All IsOther o.before
    × All IsOther o.after
    × All (λ e. e.kind ≢ group_x25519) o.shares.before

module _ (o : Offer) (h : IsOffer o) where
  abbrev body : List ℕ
  body = o.version ++ (o.random ++ after_random o)

  abbrev sid_len : ℕ
  sid_len = length o.session

  abbrev cs_len : ℕ
  cs_len = length (suites_bytes o.suites)

  abbrev p1 : ℕ
  p1 = 35 + sid_len

  abbrev p2 : ℕ
  p2 = p1 + 2 + cs_len

  abbrev p3 : ℕ
  p3 = p2 + (1 + length o.compression)

  at_random : drop 2 body ≡ o.random ++ after_random o
  at_random = drop-append_length 2 o.version (o.random ++ after_random o) h.0

  at_session : drop 34 body ≡ after_random o
  at_session =
      drop_more body 2 (o.random ++ after_random o) at_random 32
      ∙ drop-append_length 32 o.random (after_random o) h.1

  abbrev suites_on : List ℕ
  suites_on = two cs_len ++ (suites_bytes o.suites ++ after_suites o)

  at_p1 : drop p1 body ≡ suites_on
  at_p1 =
      ap (λ t. drop t body) (let e : p1 ≡ 34 + (1 + sid_len) = omega arith in e)
      ∙ drop_more body 34 (after_random o) at_session (1 + sid_len)
      ∙ drop-append_length (1 + sid_len) (sid_len ∷ o.session) suites_on (omega arith)

  at_suites : drop (p1 + 2) body ≡ suites_bytes o.suites ++ after_suites o
  at_suites = drop_more body p1 suites_on at_p1 2

  at_p2 : drop p2 body ≡ after_suites o
  at_p2 =
      drop_more body (p1 + 2) (suites_bytes o.suites ++ after_suites o) at_suites cs_len
      ∙ drop-append_length cs_len (suites_bytes o.suites) (after_suites o) refl

  abbrev total : ℕ
  total = length (offer_extensions o)

  at_p3 : drop p3 body ≡ two total ++ offer_extensions o
  at_p3 =
      drop_more body p2 (after_suites o) at_p2 (1 + length o.compression)
      ∙ drop-append_length (1 + length o.compression) (length o.compression ∷ o.compression)
          (two total ++ offer_extensions o) (omega arith)

  at_extensions : drop (p3 + 2) body ≡ offer_extensions o
  at_extensions = drop_more body p3 (two total ++ offer_extensions o) at_p3 2

  random_lem : slice 2 34 body ≡ o.random
  random_lem = ap (take 32) at_random ∙ take-append_length 32 o.random (after_random o) h.1

  session_lem : slice 35 (35 + sid_len) body ≡ o.session
  session_lem =
      slice_here body 34 (after_random o) at_session 1 sid_len
      ∙ take-append_length sid_len o.session suites_on refl

  count_lem : (cs_len + 1) / 2 ≡ length o.suites
  count_lem = omega (arith, length-suites_bytes o.suites)

  enough : length o.before + suc (length o.after) < suc (length body)
  enough =
      let e : List ℕ = extension_bytes (key_share_extension o.shares) in
      let n = length_here body (p3 + 2) (offer_extensions o) at_extensions in
      let n1 = length-append (extensions_bytes o.before) (e ++ extensions_bytes o.after) in
      let n2 = length-append e (extensions_bytes o.after) in
      let few : suc (length o.after) ≤ length (e ++ extensions_bytes o.after) =
        omega (arith, length-extensions_bytes o.after) in
      omega (arith, length-extensions_bytes o.before)

  -- Of every well-formed ClientHello that offers the server's suite and a share for x25519, whatever else
  -- it offers, the server takes the random, the session id and that share.
  pub parse_client_hello-offer_bytes :
      parse_client_hello (offer_bytes o)
      ≡ ok (record { client_random = o.random; session_id = o.session; key_share = o.shares.share })
  unfolding parse_client_hello handshake
  parse_client_hello-offer_bytes =
      rw
        (
          index_here body 34 sid_len (o.session ++ suites_on) at_session,
          read16_here body p1 cs_len (suites_bytes o.suites ++ after_suites o) at_p1,
          count_lem,
          suites_from-suites_bytes body (p1 + 2) o.suites (after_suites o) at_suites,
          index_here body p2 (length o.compression)
              (o.compression ++ (two total ++ offer_extensions o)) at_p2,
          read16_here body p3 total (offer_extensions o) at_p3,
          extensions_from-key_share o.before o.after o.shares (suc (length body)) body (p3 + 2) h.3
              h.4 h.5 (at_extensions, enough),
          h.2,
          random_lem,
          session_lem,
        )
        refl
