-- ===== src/HardwareChecks/Names/Hello.antt =====
-- tools/ip65_hw_checks.py: `client_hello_sni` reads back the host name of a ClientHello.
use c64_https.Common.{
  ℕ, zero, suc, ◌+◌, ◌-◌, ◌/◌, ◌%◌, ◌≤◌, ◌<◌, min, true, false, not, ◌||◌, some, List, [], ◌∷◌,
  ◌++◌, ltb, ◌==◌, length, length-append, take, drop, slice, All, take_all, take-append_length,
  drop-append_length, ◌≡◌, refl, ap, ◌∙◌, ◌≢◌, arith,
}
use mathlib.Core.List.{append_assoc}
use c64_https.Common.Bytes.{from_be, from_le}
use c64_https.TrustStore.{is_ascii}
use c64_https.HardwareChecks.Capture.{be_at, byte_at}
use c64_https.HardwareChecks.Names.{find_sni, skip, sni_from, client_hello_sni}
use c64_https.HardwareChecks.Positions.{
  slice_lem, be_first, drop_more, be_here, slice_here, length_here,
}

-- A number in two bytes.
abbrev pub two : ℕ → List ℕ
two n = n / 256 ∷ n % 256 ∷ []

be_at-two : (n : ℕ) (xs : List ℕ) → be_at 0 2 (two n ++ xs) ≡ n
unfolding from_be from_le
be_at-two n xs = omega arith

be_at-one : (n : ℕ) (xs : List ℕ) → be_at 0 1 (n ∷ xs) ≡ n
unfolding from_be from_le
be_at-one n xs = omega arith

be_at-three : (n : ℕ) (xs : List ℕ) → be_at 0 3 (n / 65536 ∷ n / 256 % 256 ∷ n % 256 ∷ xs) ≡ n
unfolding from_be from_le
be_at-three n xs = omega arith

-- An extension of a ClientHello.
pub record Extension : Type 0 where
  pub kind : ℕ
  pub content : List ℕ

abbrev pub extension_bytes : Extension → List ℕ
extension_bytes e = two e.kind ++ (two (length e.content) ++ e.content)

unfoldable pub extensions_bytes : List Extension → List ℕ
extensions_bytes [] = []
extensions_bytes (e ∷ es) = extension_bytes e ++ extensions_bytes es

-- The extension server_name: the length of the list, the type of its entry, and the name.
abbrev pub server_name : List ℕ → Extension
server_name name = record {
  kind = 0;
  content = two (3 + length name) ++ (0 ∷ (two (length name) ++ name));
}

module _ (body : List ℕ) (off : ℕ) (e : Extension) (more : List ℕ)
    (at : drop off body ≡ extension_bytes e ++ more) where
  fits : ltb (length body) (off + 4) ≡ false
  fits = ground (arith, length_here body off (extension_bytes e ++ more) at)

  kind_lem : be_at off 2 body ≡ e.kind
  kind_lem =
      be_first body off (extension_bytes e ++ more) at 2
      ∙ be_at-two e.kind (two (length e.content) ++ (e.content ++ more))

  data_length : be_at (off + 2) 2 body ≡ length e.content
  data_length =
      be_here body off (extension_bytes e ++ more) at 2 2
      ∙ be_at-two (length e.content) (e.content ++ more)

  pub data_lem : slice (off + 4) (off + 4 + length e.content) body ≡ e.content
  data_lem =
      slice_here body off (extension_bytes e ++ more) at 4 (length e.content)
      ∙ take-append_length (length e.content) e.content more refl

  pub next_lem : drop (off + 4 + length e.content) body ≡ more
  next_lem =
      ap (λ t. drop t body) (omega arith)
      ∙ drop_more body off (extension_bytes e ++ more) at (4 + length e.content)
      ∙ drop-append_length (4 + length e.content) (extension_bytes e) more (omega arith)

find_sni-server_name :
    (fuel : ℕ) (body : List ℕ) (off : ℕ) (es : List Extension) (name behind : List ℕ)
    → length es < fuel
    → All (λ e. e.kind ≢ 0) es
    → is_ascii name ≡ true
    → drop off body ≡ extensions_bytes es ++ (extension_bytes (server_name name) ++ behind)
    → find_sni fuel body off (length body) ≡ some name
unfolding find_sni extensions_bytes
find_sni-server_name zero body off es name behind f k a d = absurd (omega arith)
find_sni-server_name (suc fuel) body off [] name behind f k a d =
    let e : Extension = server_name name in
    let long : ltb (length e.content) 5 ≡ false = ground arith in
    let text : slice 5 (5 + be_at 3 2 e.content) e.content ≡ name =
      ap (λ n. take (5 + n - 5) name) (be_at-two (length name) name)
      ∙ take_all (5 + length name - 5) name (omega arith) in
    rw
      (
        fits body off e behind d,
        kind_lem body off e behind d,
        data_length body off e behind d,
        data_lem body off e behind d,
      )
      (rw (long, text, a) refl)
find_sni-server_name (suc fuel) body off (e ∷ es) name behind f k a d =
    let more : List ℕ = extensions_bytes es ++ (extension_bytes (server_name name) ++ behind) in
    let at : drop off body ≡ extension_bytes e ++ more =
      d
      ∙ append_assoc (extension_bytes e) (extensions_bytes es)
          (extension_bytes (server_name name) ++ behind) in
    let other : (e.kind == 0) ≡ false = ground (arith, k.0) in
    let rest =
      find_sni-server_name fuel body (off + 4 + length e.content) es name behind (omega arith) k.1 a
        (next_lem body off e more at) in
    rw (fits body off e more at, kind_lem body off e more at, other, data_length body off e more at)
      rest

-- A ClientHello that names its server.
pub record Hello : Type 0 where
  pub version_and_random : List ℕ
  pub session_id : List ℕ
  pub cipher_suites : List ℕ
  pub compression : List ℕ
  pub before : List Extension
  pub name : List ℕ
  pub behind : List ℕ

abbrev pub hello_extensions : Hello → List ℕ
hello_extensions h = extensions_bytes h.before ++ (extension_bytes (server_name h.name) ++ h.behind)

abbrev pub hello_body : Hello → List ℕ
hello_body h =
    h.version_and_random
    ++ (length h.session_id
        ∷ (h.session_id
            ++ (two (length h.cipher_suites)
                ++ (h.cipher_suites
                    ++ (length h.compression
                        ∷ (h.compression
                            ++ (two (length (hello_extensions h)) ++ hello_extensions h)))))))

-- The message: its type, the length of its body in three bytes, and the body.
abbrev pub hello_bytes : Hello → List ℕ
hello_bytes h =
    let n = length (hello_body h) in 1 ∷ (n / 65536) ∷ (n / 256 % 256) ∷ (n % 256) ∷ hello_body h

abbrev pub IsHello : Hello → Type 0
IsHello h =
    (length h.version_and_random ≡ 34) × All (λ e. e.kind ≢ 0) h.before × (is_ascii h.name ≡ true)

module _ (body : List ℕ) (off : ℕ) (field more : List ℕ) where
  skip-one :
      drop off body ≡ length field ∷ (field ++ more)
      → (skip 1 body off ≡ some (off + 1 + length field))
        × (drop (off + 1 + length field) body ≡ more)
  skip-one at =
      let ys : List ℕ = length field ∷ (field ++ more) in
      let long : ltb (length body) (off + 1) ≡ false = ground (arith, length_here body off ys at) in
      let size : be_at off 1 body ≡ length field =
        be_first body off ys at 1 ∙ be_at-one (length field) (field ++ more) in
      (
        rw (long, size) refl,
        ap (λ t. drop t body) (omega arith)
            ∙ drop_more body off ys at (1 + length field)
            ∙ drop-append_length (1 + length field) (length field ∷ field) more (omega arith),
      )

  skip-two :
      drop off body ≡ two (length field) ++ (field ++ more)
      → (skip 2 body off ≡ some (off + 2 + length field))
        × (drop (off + 2 + length field) body ≡ more)
  skip-two at =
      let ys : List ℕ = two (length field) ++ (field ++ more) in
      let long : ltb (length body) (off + 2) ≡ false = ground (arith, length_here body off ys at) in
      let size : be_at off 2 body ≡ length field =
        be_first body off ys at 2 ∙ be_at-two (length field) (field ++ more) in
      (
        rw (long, size) refl,
        ap (λ t. drop t body) (omega arith)
            ∙ drop_more body off ys at (2 + length field)
            ∙ drop-append_length (2 + length field) (two (length field) ++ field) more
                (omega arith),
      )

pub length-extensions_bytes : (es : List Extension) → length es ≤ length (extensions_bytes es)
unfolding extensions_bytes
length-extensions_bytes [] = omega arith
length-extensions_bytes (e ∷ es) =
    ground
      (arith, length-extensions_bytes es, length-append (extension_bytes e) (extensions_bytes es))

sni_from-server_name :
    (body : List ℕ) (off : ℕ) (es : List Extension) (name behind : List ℕ)
    → All (λ e. e.kind ≢ 0) es
    → is_ascii name ≡ true
    → (let exts = extensions_bytes es ++ (extension_bytes (server_name name) ++ behind) in
        drop off body ≡ two (length exts) ++ exts)
    → sni_from body off ≡ some name
sni_from-server_name body off es name behind k a at =
    let sni : List ℕ = extension_bytes (server_name name) ++ behind in
    let exts : List ℕ = extensions_bytes es ++ sni in
    let ys : List ℕ = two (length exts) ++ exts in
    let total = length_here body off ys at in
    let long : ltb (length body) (off + 2) ≡ false = ground (arith, total) in
    let size : be_at off 2 body ≡ length exts =
      be_first body off ys at 2 ∙ be_at-two (length exts) exts in
    let whole : min (length body) (off + 2 + length exts) ≡ length body = ground (arith, total) in
    let fuel : length es < length body =
      ground (arith, total, length-append (extensions_bytes es) sni, length-extensions_bytes es) in
    rw (long, size, whole)
      (find_sni-server_name (length body) body (off + 2) es name behind fuel k a
        (drop_more body off ys at 2))

-- Of a ClientHello with a server name, whatever its other fields and extensions are, the name is read,
-- also where more follows the message.
pub client_hello_sni-hello_bytes :
    (h : Hello) (rest : List ℕ) → IsHello h → client_hello_sni (hello_bytes h ++ rest) ≡ some h.name
unfolding client_hello_sni
client_hello_sni-hello_bytes h rest v =
    let body : List ℕ = hello_body h in
    let exts : List ℕ = hello_extensions h in
    let three : List ℕ = two (length exts) ++ exts in
    let comp : List ℕ = length h.compression ∷ (h.compression ++ three) in
    let suites : List ℕ = two (length h.cipher_suites) ++ (h.cipher_suites ++ comp) in
    let session : List ℕ = length h.session_id ∷ (h.session_id ++ suites) in
    let size : be_at 1 3 (hello_bytes h ++ rest) ≡ length body =
      be_at-three (length body) (body ++ rest) in
    let whole : slice 4 (4 + be_at 1 3 (hello_bytes h ++ rest)) (hello_bytes h ++ rest) ≡ body =
      ap (λ n. slice 4 (4 + n) (hello_bytes h ++ rest)) size
      ∙ slice_lem 4 (length body) (hello_bytes h ++ rest)
      ∙ take-append_length (length body) body rest refl in
    let s1 =
      skip-one body 34 h.session_id suites
        (drop-append_length 34 h.version_and_random session v.0) in
    let s2 = skip-two body (34 + 1 + length h.session_id) h.cipher_suites comp s1.1 in
    let s3 =
      skip-one body (34 + 1 + length h.session_id + 2 + length h.cipher_suites) h.compression three
        s2.1 in
    let long : (ltb (length (hello_bytes h ++ rest)) 4
          || not (byte_at 0 (hello_bytes h ++ rest) == 1))
        ≡ false =
      ground arith in
    rw (long, whole, s1.0, s2.0, s3.0)
      (sni_from-server_name body
        (34 + 1 + length h.session_id + 2 + length h.cipher_suites + 1 + length h.compression)
        h.before h.name h.behind v.1 v.2 s3.1)
