-- ===== src/Json.antt =====
-- JSON values: what the source uses of `serde_json::Value`, which is not part of the repository.
-- The type and its operations are a parameter; `IsLawful` is what the documentation of the crate
-- says of the values that `json!` builds.
use mobile_coder.Prelude.{
  String, ℕ, ◌≡◌, Bool, Option, none, some, List, [], ◌∷◌, ◌==◌, if◌then◌else◌, ◌>>=◌, unwrap_or,
}

pub record Json : Type 1 where
  pub Value : Type 0
  pub null : Value
  pub boolean : Bool → Value
  pub number : ℕ → Value
  pub string : String → Value
  pub array : List Value → Value
  -- `json!({ … })`, the entries in the order written
  pub object : List (String × Value) → Value
  pub get : Value → String → Option Value
  pub pointer : Value → String → Option Value
  pub as_str : Value → Option String
  pub as_u64 : Value → Option ℕ
  pub as_bool : Value → Option Bool
  pub as_array : Value → Option (List Value)
  -- the entries of an object, in the order of iteration
  pub as_object : Value → Option (List (String × Value))
  pub is_null : Value → Bool
  -- `Map::insert` on an object, and `v[key] = w`
  pub insert : Value → String → Value → Value
  -- `to_string` and `from_str`
  pub print : Value → String
  pub parse : String → Option Value
  -- the text of the error where `from_str` fails
  pub parse_error : String → String

-- The entry of a key, where `json!` is given each key once.
abbrev pub entry {ℓ} : {V : Type ℓ} → String → List (String × V) → Option V
entry k [] = none
entry k ((j, v) ∷ fields) = let rest = entry k fields in if j == k then some v else rest

pub record IsLawful (J : Json) : Type 0 where
  pub get-object :
      (fields : List (String × J.Value)) (k : String) → J.get (J.object fields) k ≡ entry k fields
  pub get-insert :
      (fields : List (String × J.Value)) (k : String) (v : J.Value) (j : String)
      → J.get (J.insert (J.object fields) k v) j ≡ (if k == j then some v else entry j fields)
  pub as_str-string : (s : String) → J.as_str (J.string s) ≡ some s
  pub as_bool-boolean : (b : Bool) → J.as_bool (J.boolean b) ≡ some b
  pub as_u64-number : (n : ℕ) → J.as_u64 (J.number n) ≡ some n
  pub as_array-array : (vs : List J.Value) → J.as_array (J.array vs) ≡ some vs

module _ (J : Json) where
  -- `v.get(key).and_then(Value::as_str)`
  abbrev pub get_str : J.Value → String → Option String
  get_str v k = J.get v k >>= J.as_str

  -- `v.get(key).and_then(Value::as_str).unwrap_or_default()`
  abbrev pub str_or : String → J.Value → String → String
  str_or d v k = unwrap_or d (get_str v k)

  -- `v.as_array().cloned().unwrap_or_default()`
  abbrev pub blocks_of : J.Value → List J.Value
  blocks_of v = unwrap_or [] (J.as_array v)

module _ (J : Json) (L : IsLawful J) where
  -- A text field of a value that `json!` built.
  pub get_str-object :
      (fields : List (String × J.Value)) (k : String) {s : String}
      → entry k fields ≡ some (J.string s)
      → get_str J (J.object fields) k ≡ some s
  get_str-object fields k {s} e = rw (L.get-object fields k, e) (L.as_str-string s)

  pub blocks_of-array : (vs : List J.Value) → blocks_of J (J.array vs) ≡ vs
  blocks_of-array vs = rw (L.as_array-array vs)
