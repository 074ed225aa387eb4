-- ===== src/Dockershim/Names/Labels.antt =====
-- The names that the shim gives to Pods are names that Kubernetes takes.
use training_platform.Shared.{
  Bytes, codes, ℕ, zero, suc, ◌+◌, ◌-◌, ◌/◌, ◌%◌, ◌≤◌, ◌<◌, ◌≡◌, refl, ◌∙◌, Bool, true, ◌&&◌, ◌||◌,
  List, [], ◌∷◌, ◌++◌, map, all, all-append, length, length-append, length-take, take, ltb, leb,
  is_empty, if◌then◌else◌, arith, Bool-cases, inl, inr,
}
use training_platform.Shared.Hex.{hex_digit, hex_encode}
use training_platform.Shared.Dashes.{
  is_name_char, is_label_char, trim_dashes-all, first_is, last_is, last_is-append, last_is-all,
}
use training_platform.Dockershim.Names.{Sha1, label_char, sanitize_k8s_name}

-- A DNS-1123 label: at most 63 letters, digits and dashes, with no dash at either end.
unfoldable pub is_dns_label : Bytes → Bool
is_dns_label s =
    leb (length s) 63 && all is_label_char s && first_is is_name_char s && last_is is_name_char s

label_char-all : (runes : List ℕ) → all is_label_char (map label_char runes) ≡ true
unfolding all label_char is_label_char is_name_char
label_char-all [] = refl
label_char-all (r ∷ runes) = ground (arith, label_char-all runes)

take-all : (p : ℕ → Bool) (n : ℕ) (s : Bytes) → all p s ≡ true → all p (take n s) ≡ true
unfolding all
take-all p zero s h = refl
take-all p (suc n) [] h = refl
take-all p (suc n) (c ∷ s) h = ground (arith, take-all p n s)

length-hex_encode : (s : Bytes) → length (hex_encode s) ≡ length s + length s
unfolding hex_encode
length-hex_encode [] = refl
length-hex_encode (c ∷ s) = omega (arith, length-hex_encode s)

all_mono :
    (p q : ℕ → Bool) (s : Bytes)
    → ((c : ℕ) → p c ≡ true → q c ≡ true)
    → all p s ≡ true
    → all q s ≡ true
unfolding all
all_mono p q [] k h = refl
all_mono p q (c ∷ s) k h = ground (arith, k c, all_mono p q s k)

hex_digit-is_name_char : (n : ℕ) → n < 16 → is_name_char (hex_digit n) ≡ true
unfolding hex_digit is_name_char
hex_digit-is_name_char n h = ground arith

hex_encode-names :
    (s : Bytes) → all (λ c. ltb c 256) s ≡ true → all is_name_char (hex_encode s) ≡ true
unfolding hex_encode all
hex_encode-names [] h = refl
hex_encode-names (c ∷ s) h =
    ground
      (arith, hex_digit-is_name_char (c / 16), hex_digit-is_name_char (c % 16), hex_encode-names s)

name-is_label_char : (c : ℕ) → is_name_char c ≡ true → is_label_char c ≡ true
unfolding is_label_char
name-is_label_char c h = ground arith

-- Eight digits of the sum: what stands behind the last dash of a long name.
digits_lem :
    (sha : Sha1) (name : Bytes)
    → let digits = take 8 (hex_encode (sha.sum name)) in
      (length digits ≡ 8) × (all is_name_char digits ≡ true)
digits_lem sha name =
    let hex = hex_encode (sha.sum name) in
    let long : length hex ≡ 40 =
      omega (arith, length-hex_encode (sha.sum name), sha.sum_length name) in
    (
      length-take 8 hex (omega arith),
      take-all is_name_char 8 hex (hex_encode-names (sha.sum name) (sha.sum_bytes name)),
    )

last_is-full :
    (p : ℕ → Bool) (s t : Bytes) → all p t ≡ true → 0 < length t → last_is p (s ++ t) ≡ true
last_is-full p s [] h k = ground arith
last_is-full p s (c ∷ t) h k = last_is-append p s c t ∙ last_is-all p c t h

is_dns_label_parts :
    (s : Bytes)
    → length s ≤ 63
    → all is_label_char s ≡ true
    → first_is is_name_char s ≡ true
    → last_is is_name_char s ≡ true
    → is_dns_label s ≡ true
unfolding is_dns_label
is_dns_label_parts s long clean first last = ground arith

first_is-take :
    (p : ℕ → Bool) (n : ℕ) (s t : Bytes)
    → first_is p s ≡ true
    → first_is p (take (suc n) s ++ t) ≡ true
unfolding first_is
first_is-take p n [] t h = ground arith
first_is-take p n (c ∷ s) t h = h

tail_all :
    (front digits : Bytes)
    → all is_label_char front ≡ true
    → all is_label_char digits ≡ true
    → (all is_label_char front && all is_label_char (b'-' ∷ digits)) ≡ true
unfolding all is_label_char
tail_all front digits h k = ground arith

-- A long name, cut and with the digits behind a dash.
shorten-is_dns_label :
    (out digits : Bytes)
    → all is_label_char out ≡ true
    → first_is is_name_char out ≡ true
    → 54 ≤ length out
    → length digits ≡ 8
    → all is_name_char digits ≡ true
    → is_dns_label (take 54 out ++ b'-' ∷ digits) ≡ true
shorten-is_dns_label out digits clean first long count plain =
    let front = take 54 out in
    is_dns_label_parts (front ++ b'-' ∷ digits)
      (omega (arith, length-append front (b'-' ∷ digits), length-take 54 out long))
      (all-append is_label_char front (b'-' ∷ digits)
        ∙ tail_all front digits (take-all is_label_char 54 out clean)
            (all_mono is_name_char is_label_char digits name-is_label_char plain))
      (first_is-take is_name_char 53 out (b'-' ∷ digits) first)
      (last_is-append is_name_char front b'-' digits
        ∙ last_is-full is_name_char (b'-' ∷ []) digits plain (omega arith))

-- The parts of a label but for its length.
abbrev IsLabel : Bytes → Type 0
IsLabel s =
    (all is_label_char s ≡ true)
    × (first_is is_name_char s ≡ true)
    × (last_is is_name_char s ≡ true)

filled-IsLabel :
    (s : Bytes)
    → all is_label_char s ≡ true
    → (is_empty s || (first_is is_name_char s && last_is is_name_char s)) ≡ true
    → IsLabel (if is_empty s then codes "c" else s)
unfolding is_empty all is_label_char is_name_char first_is last_is
filled-IsLabel [] clean ends = (refl, refl, refl)
filled-IsLabel (c ∷ s) clean ends = (clean, ground arith, ground arith)

fitted-is_dns_label :
    (out digits : Bytes)
    → IsLabel out
    → length digits ≡ 8
    → all is_name_char digits ≡ true
    → is_dns_label (
        if ltb 63 (length out)
        then take (63 - length (b'-' ∷ digits)) out ++ b'-' ∷ digits
        else out)
      ≡ true
fitted-is_dns_label out digits (clean, first, last) count plain =
    elim (Bool-cases (ltb 63 (length out))) [
      | inl e ↦
          rw (e, count) (shorten-is_dns_label out digits clean first (ground arith) count plain)
      | inr e ↦ rw e (is_dns_label_parts out (ground arith) clean first last)
    ]

-- Whatever a container is called, its Pod gets a name that is a DNS-1123 label: a short one is the
-- trimmed name, a long one is cut to 63 characters, and an empty one is filled in.
pub sanitize-is_dns_label :
    (sha : Sha1) (lower_runes : Bytes → List ℕ) (name : Bytes)
    → is_dns_label (sanitize_k8s_name sha lower_runes name) ≡ true
unfolding sanitize_k8s_name
sanitize-is_dns_label sha lower_runes name =
    let runes = map label_char (lower_runes name) in
    let (clean, ends) = trim_dashes-all runes (label_char-all (lower_runes name)) in
    let (count, plain) = digits_lem sha name in
    fitted-is_dns_label _ _ (filled-IsLabel _ clean ends) count plain
