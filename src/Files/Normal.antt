-- ===== src/Files/Normal.antt =====
-- Normal guest paths (`normalize`, `join` and `parent` of crates/mc-core/src/files.rs).
use Prim.Native.Char.{char}
use Prim.Native.String.{[], ◌∷◌}
use Prim.Native.String.append as appending
use mathlib.Core.List.{reverse_aux}
use mobile_coder.Prelude.{
  ◌≡◌, refl, ap, sym, ◌∙◌, ◌<>◌, String, Bool, true, false, ◌||◌, inl, inr, Option, none, some,
  List, ◌++◌, reverse, ◌==◌, ==_iff, Bool-cases, if◌then◌else◌, All,
}
use mobile_coder.Prelude as Shared
use mobile_coder.Prelude.Text.{is_empty, split, join as join_parts}
use mobile_coder.Prelude.Text.Parts.{has_char, split-append, split-plain, split-join, split-All}
use mobile_coder.Files.{pop, visit, collect, normalize, join, parent}

-- A name that can stand between two separators of a normal path.
abbrev pub IsPart : String → Type 0
IsPart s = ((is_empty s || s == ".") ≡ false) × ((s == "..") ≡ false) × (has_char b'/' s ≡ false)

abbrev pub IsCanonical : String → Type 0
IsCanonical s = (ps : List String) × All IsPart ps × (s ≡ "/" <> join_parts "/" ps)

-- The parts of a path as the loop leaves them, the last one first.
abbrev pub parts_of : String → List String
parts_of s = collect (split b'/' s) List.[]

abbrev NoSlash : String → Type 0
NoSlash s = has_char b'/' s ≡ false

pub visit-part : (p : String) (ps : List String) → IsPart p → visit p ps ≡ List.◌∷◌ p ps
unfolding visit
visit-part p ps (full, up, plain) = rw (full, up) refl

visit-All : (p : String) (ps : List String) → NoSlash p → All IsPart ps → All IsPart (visit p ps)
unfolding visit
visit-All p ps plain h = elim (Bool-cases (is_empty p || p == ".")) [
  | inl skip ↦ rw skip h
  | inr full ↦ elim (Bool-cases (p == "..")) [
    | inl up ↦ rw (full, up) (popped ps h)
    | inr down ↦ rw (full, down) ((full, down, plain), h)
  ]
]
  where
    popped : (l : List String) → All IsPart l → All IsPart (pop l)
    popped List.[] h = h
    popped (List.◌∷◌ q qs) (here, rest) = rest

collect-All : (l ps : List String) → All NoSlash l → All IsPart ps → All IsPart (collect l ps)
unfolding collect
collect-All List.[] ps plain h = h
collect-All (List.◌∷◌ p l) ps (here, rest) h =
    collect-All l (visit p ps) rest (visit-All p ps here h)

pub collect-append : (l m ps : List String) → collect (l ++ m) ps ≡ collect m (collect l ps)
unfolding collect
collect-append List.[] m ps = refl
collect-append (List.◌∷◌ p l) m ps = collect-append l m (visit p ps)

pub collect_parts : (l ps : List String) → All IsPart l → collect l ps ≡ reverse_aux l ps
unfolding collect
collect_parts List.[] ps h = refl
collect_parts (List.◌∷◌ p l) ps (here, rest) =
    rw (visit-part p ps here) (collect_parts l (List.◌∷◌ p ps) rest)

reverse_aux-All :
    (l ps : List String) → All IsPart l → All IsPart ps → All IsPart (reverse_aux l ps)
reverse_aux-All List.[] ps h k = k
reverse_aux-All (List.◌∷◌ p l) ps (here, rest) k = reverse_aux-All l (List.◌∷◌ p ps) rest (here, k)

reverse_aux-twice :
    (l ps r : List String) → reverse_aux (reverse_aux l ps) r ≡ reverse_aux ps (l ++ r)
reverse_aux-twice List.[] ps r = refl
reverse_aux-twice (List.◌∷◌ p l) ps r = reverse_aux-twice l (List.◌∷◌ p ps) r

All-NoSlash : (l : List String) → All IsPart l → All NoSlash l
All-NoSlash List.[] h = tt
All-NoSlash (List.◌∷◌ p l) ((full, up, plain), rest) = (plain, All-NoSlash l rest)

pub parts_of-All : (s : String) → All IsPart (parts_of s)
parts_of-All s = collect-All (split b'/' s) List.[] (split-All b'/' s) tt

slash_first : (s : String) → "/" <> s ≡ char 47 tt ∷ s
slash_first s = appending.cons (char 47 tt) [] s ∙ ap (λ t. char 47 tt ∷ t) (appending.nil s)

parts_of-joined :
    (l : List String) → All IsPart l → parts_of ("/" <> join_parts "/" l) ≡ reverse_aux l List.[]
unfolding collect split visit join_parts
parts_of-joined List.[] h = refl
parts_of-joined (List.◌∷◌ p l) (here, rest) =
    rw
      (
        slash_first (join_parts "/" (List.◌∷◌ p l)),
        split-join b'/' (char 47 tt) p l refl here.2 (All-NoSlash l rest),
      )
      (collect_parts (List.◌∷◌ p l) List.[] (here, rest))

parts_of-normalize : (s : String) → parts_of (normalize s) ≡ parts_of s
unfolding normalize
parts_of-normalize s =
    parts_of-joined (reverse (parts_of s))
      (reverse_aux-All (parts_of s) List.[] (parts_of-All s) tt)
    ∙ reverse_aux-twice (parts_of s) List.[] List.[]
    ∙ Shared.append-nil (parts_of s)

-- A normal path is a separator and names joined by separators, none of which is empty, . or .. or
-- holds a separator, and it is its own normal form.
pub normalize-IsCanonical :
    (path : String) → IsCanonical (normalize path) × (normalize (normalize path) ≡ normalize path)
unfolding normalize
normalize-IsCanonical path = (
  (reverse (parts_of path), reverse_aux-All (parts_of path) List.[] (parts_of-All path) tt, refl),
  ap (λ l. "/" <> join_parts "/" (reverse l)) (parts_of-normalize path),
)

-- Two paths with the same parts are the same path.
same_parts : (s t : String) → parts_of s ≡ parts_of t → normalize s ≡ normalize t
unfolding normalize
same_parts s t e = ap (λ l. "/" <> join_parts "/" (reverse l)) e

parts_of-below : (a b : String) → parts_of (a <> "/" <> b) ≡ collect (split b'/' b) (parts_of a)
parts_of-below a b =
    rw (slash_first b, split-append b'/' (char 47 tt) a b refl)
      (collect-append (split b'/' a) (split b'/' b) List.[])

parts_of-join :
    (dir name : String) → IsPart name → parts_of (dir <> "/" <> name) ≡ List.◌∷◌ name (parts_of dir)
unfolding collect
parts_of-join dir name h =
    rw (parts_of-below dir name, split-plain b'/' name h.2) (visit-part name (parts_of dir) h)

parts_of-up : (s : String) → parts_of (s <> "/..") ≡ pop (parts_of s)
unfolding split collect visit ◌==◌
parts_of-up s = parts_of-below s ".."

not_root : (s name : String) (l : List String) → parts_of s ≡ List.◌∷◌ name l → (s == "/") ≡ false
unfolding split collect visit
not_root s name l e = elim (Bool-cases (s == "/")) [
  | inl root ↦ cc (ap parts_of ((==_iff s "/").0 root), e)
  | inr other ↦ other
]

-- The parent of a directory joined with a name that has no separator and is not empty, . or .. is
-- the directory, in normal form.
pub parent-join : (dir name : String) → IsPart name → parent (join dir name) ≡ some (normalize dir)
unfolding parent join
parent-join dir name h =
    let whole = dir <> "/" <> name in
    let e = parts_of-normalize whole ∙ parts_of-join dir name h in
    let again = parts_of-normalize (normalize whole) ∙ e in
    rw (parent, not_root (normalize (normalize whole)) name (parts_of dir) again)
      (ap some (
        same_parts (normalize (normalize whole) <> "/..") dir
          (parts_of-up (normalize (normalize whole)) ∙ ap pop again)))
