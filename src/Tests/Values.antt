-- ===== src/Tests/Values.antt =====
-- A concrete JSON, as data, with the laws that the model assumes of `serde_json`. Its parser knows
-- the frames of the tests.
use mobile_coder.Prelude.{
  ℕ, ◌≡◌, refl, ap, String, Bool, true, false, Option, none, some, List, [], ◌∷◌, ◌==◌,
  if◌then◌else◌, ◌>>=◌, Bool-cases, inl, inr, ==_iff,
}
use mobile_coder.Json.{Json, IsLawful, entry}

mutual
  pub data Value : Type 0 where
    null : Value
    boolean : Bool → Value
    number : ℕ → Value
    string : String → Value
    array : Items → Value
    object : Fields → Value

  pub data Items : Type 0 where
    nil : Items
    cons : Value → Items → Items

  pub data Fields : Type 0 where
    end : Fields
    field : String → Value → Fields → Fields

abbrev items : List Value → Items
items [] = nil
items (v ∷ vs) = cons v (items vs)

abbrev list_of : Items → List Value
list_of nil = []
list_of (cons v vs) = v ∷ list_of vs

abbrev fields : List (String × Value) → Fields
fields [] = end
fields ((k, v) ∷ fs) = field k v (fields fs)

abbrev entries_of : Fields → List (String × Value)
entries_of end = []
entries_of (field k v fs) = (k, v) ∷ entries_of fs

abbrev get : Value → String → Option Value
get (object fs) k = entry k (entries_of fs)
get _ k = none

abbrev as_str : Value → Option String
as_str (string s) = some s
as_str _ = none

abbrev as_u64 : Value → Option ℕ
as_u64 (number n) = some n
as_u64 _ = none

abbrev as_bool : Value → Option Bool
as_bool (boolean b) = some b
as_bool _ = none

abbrev as_array : Value → Option (List Value)
as_array (array vs) = some (list_of vs)
as_array _ = none

abbrev as_object : Value → Option (List (String × Value))
as_object (object fs) = some (entries_of fs)
as_object _ = none

abbrev is_null : Value → Bool
is_null null = true
is_null _ = false

abbrev put : String → Value → Fields → Fields
put k v end = field k v end
put k v (field j w fs) = let rest = put k v fs in if j == k then field j v fs else field j w rest

abbrev insert : Value → String → Value → Value
insert (object fs) k v = object (put k v fs)
insert v k w = v

abbrev pub pair : String → String → String × Value
pair k v = (k, string v)

-- The frames of a stream that asks for a tool, and of one that ends the turn.
abbrev pub frames : List (String × Value)
frames =
    (
      "call",
      object (
          fields (
            pair "type" "content_block_start"
            ∷ ("index", number 0)
            ∷ (
              "content_block",
              object
                  (fields (pair "type" "tool_use" ∷ pair "id" "t1" ∷ pair "name" "list_jobs" ∷ [])),
            )
            ∷ [])),
    )
    ∷ (
      "say",
      object (
          fields (
            pair "type" "content_block_start"
            ∷ ("index", number 0)
            ∷ ("content_block", object (fields (pair "type" "text" ∷ pair "text" "Done." ∷ [])))
            ∷ [])),
    )
    ∷ (
      "more",
      object (
          fields (
            pair "type" "content_block_delta"
            ∷ ("index", number 0)
            ∷ ("delta", object (fields (pair "type" "text_delta" ∷ pair "text" " Really." ∷ [])))
            ∷ [])),
    )
    ∷ ("stop", object (fields (pair "type" "message_stop" ∷ [])))
    ∷ (
      "shell",
      object (
          fields (
            pair "type" "content_block_start"
            ∷ ("index", number 0)
            ∷ (
              "content_block",
              object (fields (pair "type" "tool_use" ∷ pair "id" "t2" ∷ pair "name" "bash" ∷ [])),
            )
            ∷ [])),
    )
    ∷ (
      "input",
      object (
          fields (
            pair "type" "content_block_delta"
            ∷ ("index", number 0)
            ∷ (
              "delta",
              object (fields (pair "type" "input_json_delta" ∷ pair "partial_json" "run ls" ∷ [])),
            )
            ∷ [])),
    )
    ∷ ("run ls", object (fields (pair "command" "ls" ∷ [])))
    ∷ []

abbrev parse : String → Option Value
parse d = entry d frames

-- Pointers of the two forms that the source uses.
abbrev pointer : Value → String → Option Value
pointer v p =
    if p == "/error/type"
    then (get v "error" >>= λ e. get e "type")
    else if p == "/error/message"
    then (get v "error" >>= λ e. get e "message")
    else none

abbrev pub data_json : Json
data_json = record {
  Value = Value;
  null = null;
  boolean = boolean;
  number = number;
  string = string;
  array = λ vs. array (items vs);
  object = λ fs. object (fields fs);
  get = get;
  pointer = pointer;
  as_str = as_str;
  as_u64 = as_u64;
  as_bool = as_bool;
  as_array = as_array;
  as_object = as_object;
  is_null = is_null;
  insert = insert;
  print = λ v. "{}";
  parse = parse;
  parse_error = λ d. "expected value";
}

list_of-items : (vs : List Value) → list_of (items vs) ≡ vs
list_of-items [] = refl
list_of-items (v ∷ vs) = ap (λ l. v ∷ l) (list_of-items vs)

entries_of-fields : (fs : List (String × Value)) → entries_of (fields fs) ≡ fs
entries_of-fields [] = refl
entries_of-fields ((k, v) ∷ fs) = ap (λ l. (k, v) ∷ l) (entries_of-fields fs)

apart : (i j k : String) → (i == k) ≡ false → (i == j) ≡ true → (k == j) ≡ true → ⊥
apart i j k e f g = cc (e, f, (==_iff k j).0 g)

either_key :
    (b : Bool) (v w : Value) (o : Option Value)
    → (if b then some v else o) ≡ (if b then some v else if b then some w else o)
either_key true v w o = refl
either_key false v w o = refl

entry-put :
    (k : String) (v : Value) (j : String) (fs : List (String × Value))
    → entry j (entries_of (put k v (fields fs))) ≡ (if k == j then some v else entry j fs)
entry-put k v j [] = refl
entry-put k v j ((i, w) ∷ fs) =
    let rest = entry-put k v j fs in
    elim (Bool-cases (i == k)) [
      | inl e ↦
          rw (e, (==_iff i k).0 e, entries_of-fields fs) (either_key (k == j) v w (entry j fs))
      | inr e ↦
          rw (e, rest)
            (elim (Bool-cases (i == j)) [
              | inr f ↦ rw f refl
              | inl f ↦ elim (Bool-cases (k == j)) [
                | inl g ↦ absurd (apart i j k e f g)
                | inr g ↦ rw (f, g) refl
              ]
            ])
    ]

pub data_json-IsLawful : IsLawful data_json
data_json-IsLawful = record {
  get-object = λ fs k. ap (entry k) (entries_of-fields fs);
  get-insert = λ fs k v j. entry-put k v j fs;
  as_str-string = λ s. refl;
  as_bool-boolean = λ b. refl;
  as_u64-number = λ n. refl;
  as_array-array = λ vs. ap some (list_of-items vs);
}
