-- ===== src/Tests/Samples.antt =====
-- Concrete parameters: a codec, a cluster, an HMAC.
use training_platform.Shared.{
  Bytes, ℕ, zero, suc, all, ltb, ◌<◌, ◌*◌, ◌+◌, ◌-◌, ◌≡◌, ◌≢◌, refl, ap, subst, ◌%◌, Bool, true,
  ◌&&◌, Option, none, some, List, [], ◌∷◌, ◌++◌, All, All-append, arith, cut, if◌then◌else◌, str_eq,
  str_eq_iff, Bool-cases, Option-cases, inl, inr, length,
}
use training_platform.Shared.Table.{insert}
use training_platform.Scoring.Journal.{SolveRecord, Codec}
use training_platform.Scoring.Hash.{Sha256}
use training_platform.Scoring.Phash.{Image}
use training_platform.Dockershim.Names.{Sha1}
use training_platform.Session.Expiry.{label, managed_by_label, managed_by_value}
use training_platform.Session.Api.{
  Pod, Namespace, PodApi, PodLaws, ApiError, not_found, already_exists, ApiResult, ok, fail,
}
use training_platform.Auth.Cookie.{Hmac}

-- Every byte is moved up by 20, so that 14 is free to part the fields.
unfoldable pub shift : Bytes → Bytes
shift [] = []
shift (c ∷ s) = (c + 20) ∷ shift s

unfoldable unshift : Bytes → Bytes
unshift [] = []
unshift (c ∷ s) = (c - 20) ∷ unshift s

unfoldable pub sample_encode : SolveRecord → Bytes
unfolding shift
sample_encode r = shift r.user ++ 14 ∷ (shift r.challenge ++ 14 ∷ shift r.at)

unfoldable pub sample_decode : Bytes → Option SolveRecord
unfolding unshift cut
sample_decode s =
    let (user, rest) = cut 14 s in
    elim rest [
      | none ↦ none
      | some t ↦
          let (challenge, last) = cut 14 t in
          elim last [
            | none ↦ none
            | some at ↦
                some
                  (record { user = unshift user; challenge = unshift challenge; at = unshift at })
          ]
    ]

unshift-shift : (s : Bytes) → unshift (shift s) ≡ s
unfolding shift unshift
unshift-shift [] = refl
unshift-shift (c ∷ s) = ground (arith, unshift-shift s)

pub length-shift : (s : Bytes) → length (shift s) ≡ length s
unfolding shift
length-shift [] = refl
length-shift (c ∷ s) = rw (length-shift s)

cut-shift : (s t : Bytes) → cut 14 (shift s ++ 14 ∷ t) ≡ (shift s, some t)
unfolding shift cut
cut-shift [] t = refl
cut-shift (c ∷ s) t = ground (arith, cut-shift s t)

abbrev pub Clean : ℕ → Type 0
Clean c = (c ≢ 10) × (c ≢ 13)

shift-Clean : (s : Bytes) → All Clean (shift s)
unfolding shift
shift-Clean [] = tt
shift-Clean (c ∷ s) = (((λ h. omega arith), λ h. omega arith), shift-Clean s)

pub sample_one_line : (r : SolveRecord) → All Clean (sample_encode r)
unfolding sample_encode
sample_one_line r =
    All-append Clean (shift r.user) (14 ∷ (shift r.challenge ++ 14 ∷ shift r.at))
      (shift-Clean r.user)
      (
        ((λ h. omega arith), λ h. omega arith),
        All-append Clean (shift r.challenge) (14 ∷ shift r.at) (shift-Clean r.challenge)
            (((λ h. omega arith), λ h. omega arith), shift-Clean r.at),
      )

separated : (s t : Bytes) → s ++ 14 ∷ t ≢ []
separated [] t h = cc
separated (c ∷ s) t h = cc

pub sample_not_empty : (r : SolveRecord) → sample_encode r ≢ []
unfolding sample_encode
sample_not_empty r = separated (shift r.user) (shift r.challenge ++ 14 ∷ shift r.at)

pub sample_decode-encode : (r : SolveRecord) → sample_decode (sample_encode r) ≡ some r
unfolding sample_decode sample_encode
sample_decode-encode r = ground (
  arith,
  cut-shift r.user (shift r.challenge ++ 14 ∷ shift r.at),
  cut-shift r.challenge (shift r.at),
  unshift-shift r.user,
  unshift-shift r.challenge,
  unshift-shift r.at,
)

abbrev pub sample_codec : Codec
sample_codec = record {
  encode = sample_encode;
  decode = sample_decode;
  is_text = λ s. true;
  one_line = sample_one_line;
  not_empty = sample_not_empty;
  decode-encode = λ r h k l. sample_decode-encode r;
}

-- A sum of bytes in place of the hash.
unfoldable pub checksum : Bytes → ℕ
checksum [] = 0
checksum (c ∷ s) = c + checksum s

abbrev pub sample_hmac : Hmac
sample_hmac = record {
  mac = λ secret payload. checksum (secret ++ payload) % 256 ∷ [];
  mac_bytes = λ secret payload. (omega arith, tt);
}

-- A cluster: the Pods by namespace and name, the names that a list call visits, and the namespaces.
pub record Cluster : Type 0 where
  pub pods : Bytes → Bytes → Option Pod
  pub names : List Bytes
  pub namespaces : List Namespace

abbrev same_key : Bytes → Bytes → Bytes → Bytes → Bool
same_key n m n' m' = str_eq n n' && str_eq m m'

unfoldable pub cluster_get : Cluster → Bytes → Bytes → ApiResult Pod
cluster_get c n m = elim (c.pods n m) [ none ↦ fail not_found | some p ↦ ok p ]

unfoldable pub is_listed : Bytes → Pod → Bool
is_listed m p = str_eq p.name m && str_eq (label p.labels managed_by_label) managed_by_value

unfoldable pub list_names : Cluster → Bytes → List Bytes → List Pod
list_names c n [] = []
list_names c n (m ∷ ms) =
    let rest = list_names c n ms in
    elim (c.pods n m) [ none ↦ rest | some p ↦ if is_listed m p then p ∷ rest else rest ]

unfoldable pub cluster_put : Bytes → Bytes → Option Pod → Cluster → Cluster
cluster_put n m p c = record c { pods = λ n' m'. if same_key n m n' m' then p else c.pods n' m' }

unfoldable pub cluster_create : Cluster → Pod → Cluster × Option ApiError
cluster_create c p = elim (c.pods p.ns p.name) [
  | none ↦ (cluster_put p.ns p.name (some p) (record c { names = p.name ∷ c.names }), none)
  | some _ ↦ (c, some already_exists)
]

unfoldable pub cluster_delete : Cluster → Bytes → Bytes → Cluster × Option ApiError
cluster_delete c n m = (cluster_put n m none c, none)

unfoldable pub cluster_patch : Cluster → Bytes → Bytes → Bytes → Bytes → Cluster × Option ApiError
cluster_patch c n m key value = elim (c.pods n m) [
  | none ↦ (c, some not_found)
  | some p ↦ (cluster_put n m (some (record p { labels = insert key value p.labels })) c, none)
]

abbrev pub sample_api : PodApi
sample_api = record {
  Cluster = Cluster;
  get_pod = cluster_get;
  list_pods = λ c n. ok (list_names c n c.names);
  create_pod = cluster_create;
  delete_pod = cluster_delete;
  patch_label = cluster_patch;
  create_namespace = λ c ns. (record c { namespaces = ns ∷ c.namespaces }, none);
  delete_namespace = λ c n. (c, none);
  list_namespaces = λ c. ok c.namespaces;
}

list_names-listed :
    (c : Cluster) (n : Bytes) (ms : List Bytes)
    → All
        (λ p.
          (cluster_get c n p.name ≡ ok p) × (label p.labels managed_by_label ≡ managed_by_value))
        (list_names c n ms)
unfolding list_names
list_names-listed c n [] = tt
list_names-listed c n (m ∷ ms) = elim (Option-cases (c.pods n m)) [
  | inl e ↦ rw (e, list_names) (list_names-listed c n ms)
  | inr (p, e) ↦ elim (Bool-cases (is_listed m p)) [
    | inr f ↦ rw (e, list_names) (rw f (list_names-listed c n ms))
    | inl t ↦
        rw (e, list_names)
          (rw t (
            (unfold is_listed cluster_get in
                ground (
                  arith,
                  str_eq_iff p.name m,
                  str_eq_iff (label p.labels managed_by_label) managed_by_value,
                )),
            list_names-listed c n ms,
          ))
  ]
]

put_self : (c : Cluster) (n m : Bytes) (p : Option Pod) → (cluster_put n m p c).pods n m ≡ p
unfolding cluster_put
put_self c n m p = ground (arith, str_eq_iff n n, str_eq_iff m m)

put_ne :
    (c : Cluster) (n m k : Bytes) (p : Option Pod)
    → m ≢ k
    → (cluster_put n m p c).pods n k ≡ c.pods n k
unfolding cluster_put
put_ne c n m k p h = ground (arith, str_eq_iff m k)

pub sample_patch :
    (c : Cluster) (n m key value : Bytes) (p : Pod)
    → cluster_get c n m ≡ ok p
    → (cluster_patch c n m key value).1 ≡ none
    → cluster_get (cluster_patch c n m key value).0 n m
      ≡ ok (record p { labels = insert key value p.labels })
unfolding cluster_get cluster_patch
sample_patch c n m key value p h k =
    ground (arith, put_self c n m (some (record p { labels = insert key value p.labels })))

pub sample_laws : PodLaws sample_api
sample_laws = record {
  listed = λ c n ps h.
      subst
        (All (λ p.
          (cluster_get c n p.name ≡ ok p) × (label p.labels managed_by_label ≡ managed_by_value)))
        (ap (λ r. elim r [ ok xs ↦ xs | fail x ↦ [] ]) h) (list_names-listed c n c.names);
  get-delete = λ c n m h. unfold cluster_get cluster_delete in ground (arith, put_self c n m none);
  get-delete_ne =
      λ c n m k h. unfold cluster_get cluster_delete in ground (arith, put_ne c n m k none h);
  get-patch = sample_patch;
}

unfoldable pub replicate_byte : ℕ → ℕ → Bytes
replicate_byte zero c = []
replicate_byte (suc k) c = c ∷ replicate_byte k c

replicate_byte-all : (k c : ℕ) → c < 256 → all (λ b. ltb b 256) (replicate_byte k c) ≡ true
unfolding all replicate_byte
replicate_byte-all zero c h = refl
replicate_byte-all (suc k) c h = ground (arith, replicate_byte-all k c h)

length-replicate_byte : (k c : ℕ) → length (replicate_byte k c) ≡ k
unfolding replicate_byte
length-replicate_byte zero c = refl
length-replicate_byte (suc k) c = omega (arith, length-replicate_byte k c)

-- So many bytes from a text.
unfoldable pub sample_sum : ℕ → Bytes → Bytes
sample_sum k s = replicate_byte k (checksum s % 256)

pub sample_sum-all : (k : ℕ) (s : Bytes) → all (λ b. ltb b 256) (sample_sum k s) ≡ true
unfolding sample_sum
sample_sum-all k s = replicate_byte-all k (checksum s % 256) (omega arith)

pub length-sample_sum : (k : ℕ) (s : Bytes) → length (sample_sum k s) ≡ k
unfolding sample_sum
length-sample_sum k s = length-replicate_byte k (checksum s % 256)

abbrev pub sample_sha256 : Sha256
sample_sha256 = record {
  sum = sample_sum 32;
  sum_bytes = sample_sum-all 32;
  sum_length = length-sample_sum 32;
}

abbrev pub sample_sha1 : Sha1
sample_sha1 = record {
  sum = sample_sum 20;
  sum_bytes = sample_sum-all 20;
  sum_length = length-sample_sum 20;
}

-- A picture of nine columns and eight rows.
abbrev pub sample_image : Image
sample_image = record {
  min_x = 0;
  min_y = 0;
  width = 9;
  height = 8;
  gray = λ x y. (x * 29 + y * 7) % 256;
  is_uint8 = λ x y. omega arith;
}
