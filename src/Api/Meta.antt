-- ===== src/Api/Meta.antt =====
-- The parts of Kubernetes' object metadata that the code reads, instants and durations, and the
-- types that the custom resources share (api/v1alpha1/types.go).
use fluxseer_rca.Base.{
  ℕ, ◌^◌, ◌-◌, String, List, [], ◌∷◌, Option, none, some, Bool, true, false, ◌==◌, if◌then◌else◌, ℤ,
  pos, negsuc, ◌+ℤ◌, ◌-ℤ◌, ◌*ℤ◌, ltb_ℤ, eqb_ℤ, int64, ◌≡◌, refl, ◌+++◌,
}

-- A Go map of texts. A missing key reads as the empty text.
abbrev pub StringMap : Type 0
StringMap = List (String × String)

unfoldable pub lookup : StringMap → String → Option String
lookup [] k = none
lookup ((j, v) ∷ m) k = if j == k then some v else lookup m k

abbrev pub or_empty : Option String → String
or_empty none = ""
or_empty (some v) = v

unfoldable pub read : StringMap → String → String
unfolding lookup
read m k = or_empty (lookup m k)

-- `m[key] = value`: an old entry is replaced where it stands.
unfoldable pub assign : String → String → StringMap → StringMap
assign k v [] = (k, v) ∷ []
assign k v ((j, w) ∷ m) = if j == k then (k, v) ∷ m else (j, w) ∷ assign k v m

-- `time.Time` and `metav1.Time`: nanoseconds since Go's zero time.
abbrev pub Time : Type 0
Time = ℤ

-- `time.Duration`: nanoseconds, in an `int64`.
abbrev pub Duration : Type 0
Duration = ℤ

abbrev pub is_zero_time : Time → Bool
is_zero_time t = eqb_ℤ t (pos 0)

abbrev pub before : Time → Time → Bool
before s t = ltb_ℤ s t

abbrev pub after : Time → Time → Bool
after s t = ltb_ℤ t s

unfoldable pub add_time : Time → Duration → Time
unfolding ◌+ℤ◌
add_time t d = t +ℤ d

-- `t.Sub(u)`, which saturates at the ends of an `int64`.
unfoldable pub sub_time : Time → Time → Duration
unfolding ◌-ℤ◌
sub_time t u =
    let d = t -ℤ u in
    if ltb_ℤ (pos (2 ^ 63 - 1)) d
    then pos (2 ^ 63 - 1)
    else if ltb_ℤ d (negsuc (2 ^ 63 - 1))
    then negsuc (2 ^ 63 - 1)
    else d

abbrev pub second : ℕ
second = 1_000_000_000

-- `time.Duration(n) * time.Second`, which wraps around.
unfoldable pub seconds : ℤ → Duration
unfolding ◌*ℤ◌ int64
seconds n = int64 (n *ℤ pos second)

pub record Key : Type 0 where
  pub namespace : String
  pub name : String

pub record OwnerReference : Type 0 where
  pub kind : String
  pub name : String

pub record ObjectMeta : Type 0 where
  pub name : String
  pub namespace : String
  pub uid : String
  pub generation : ℤ
  pub resource_version : String
  pub labels : StringMap
  pub annotations : StringMap
  pub owner_references : List OwnerReference

abbrev pub key_of : ObjectMeta → Key
key_of m = record { namespace = m.namespace; name = m.name }

pub record SelectorRequirement : Type 0 where
  pub key : String
  pub operator : String
  pub values : List String

-- `metav1.LabelSelector`. What it selects is a parameter, `Selects`.
pub record LabelSelector : Type 0 where
  pub match_labels : StringMap
  pub match_expressions : List SelectorRequirement

-- The outcome of a call that may fail. The errors are those that the code tells apart, with the
-- text that `Error` returns.
pub data Error : Type 0 where
  not_found conflict canceled deadline_exceeded : String → Error
  other : String → Error

abbrev pub error_text : Error → String
error_text (not_found s) = s
error_text (conflict s) = s
error_text (canceled s) = s
error_text (deadline_exceeded s) = s
error_text (other s) = s

abbrev pub is_not_found : Error → Bool
is_not_found (not_found _) = true
is_not_found _ = false

-- `fmt.Errorf("…: %w", err)`: the kind stays, and the text gets a prefix.
abbrev pub wrap_error : String → Error → Error
wrap_error prefix (not_found s) = not_found (prefix +++ s)
wrap_error prefix (conflict s) = conflict (prefix +++ s)
wrap_error prefix (canceled s) = canceled (prefix +++ s)
wrap_error prefix (deadline_exceeded s) = deadline_exceeded (prefix +++ s)
wrap_error prefix (other s) = other (prefix +++ s)

pub data Result {u} (T : Type u) : Type u where
  err : Error → Result T
  ok : T → Result T

-- `metav1.LabelSelectorAsSelector` followed by `Matches`: an error for a malformed selector.
abbrev pub Selects : Type 0
Selects = LabelSelector → StringMap → Result Bool

pub record TargetRef : Type 0 where
  pub cluster : String
  pub namespace : String
  pub kind : String
  pub name : String
  pub api_version : String
  pub service : String

pub record NamespacedObjectReference : Type 0 where
  pub name : String
  pub namespace : String

pub record ResourceStatus : Type 0 where
  pub phase : String
  pub message : String
  pub observed_generation : ℤ
  pub updated_at : Time

-- `setResourceStatus`.
unfoldable pub set_resource_status : String → String → ℤ → Time → ResourceStatus
set_resource_status phase message generation now = record {
  phase = phase;
  message = message;
  observed_generation = generation;
  updated_at = now;
}

-- `if err != nil { return err }`, and then the rest.
abbrev pub unless_failed {u v} : {T : Type u} {U : Type v} → (T → Result U) → Result T → Result U
unless_failed rest (err failure) = err failure
unless_failed rest (ok x) = rest x

infixl 5 ◌>>=◌
abbrev pub ◌>>=◌ {u v} : {T : Type u} {U : Type v} → Result T → (T → Result U) → Result U
r >>= rest = unless_failed rest r

-- A chain that succeeds had a first call that did.
pub >>=-eq-ok {u v} :
    {T : Type u} {U : Type v} (r : Result T) (rest : T → Result U) {answer : U}
    → (r >>= rest) ≡ ok answer
    → (x : T) × (r ≡ ok x) × (rest x ≡ ok answer)
>>=-eq-ok (err failure) rest e = cc
>>=-eq-ok (ok x) rest e = (x, refl, e)

pub ok-injective {u} : {T : Type u} {x y : T} → ok x ≡ ok y → x ≡ y
ok-injective same = cc

pub err-injective {u} : {T : Type u} {e f : Error} → ◌≡◌ {A = Result T} (err e) (err f) → e ≡ f
err-injective same = cc
