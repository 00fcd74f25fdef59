-- ===== src/GuestFs/Inside.antt =====
-- Paths below the root, and what a link adds to them (`resolve` of crates/mc-sandbox/src/fs.rs).
use Prim.Native.String.{count}
use mathlib.Core.List.{reverse_aux, append_assoc}
use mobile_coder.Prelude.{
  ℕ, ◌+◌, ◌≤◌, ◌≡◌, refl, ap, sym, ◌∙◌, ◌<>◌, String, Bool, true, false, not, ◌||◌, inl, inr,
  Option, none, some, some-injective, List, [], ◌∷◌, ◌++◌, reverse, ◌==◌, ==_refl, Bool-cases, keep,
  length, length-append, arith,
}
use mobile_coder.Prelude.Text.{is_empty, split, is_prefix}
use mobile_coder.Prelude.Text.Parts.{length-split}
use mobile_coder.Sandbox.{Ran, ok, err}
use mobile_coder.GuestFs.{
  HostPath, HostFs, same_path, strip_prefix, guest_of, components, expand, expand_below, up,
}

-- A path that is the root, or below it with no link and no `..` on the way.
pub data IsReal (fs : HostFs) (root : HostPath) : HostPath → Type 0 where
  top : {p : HostPath} → p ≡ root → IsReal fs root p
  below :
      {n : String} {p : HostPath}
      → IsReal fs root p
      → (n == "..") ≡ false
      → fs.is_symlink (n ∷ p) ≡ ok false
      → IsReal fs root (n ∷ p)

-- What a path can come to: a real one, or one of the errors of the host, or too many links.
pub data Outcome (fs : HostFs) (root : HostPath) (guest : String) : Ran HostPath → Type 0 where
  real : {p : HostPath} → IsReal fs root p → Outcome fs root guest (ok p)
  no_entry :
      {e : String} (q : HostPath) (m : String)
      → fs.is_symlink q ≡ err m
      → e ≡ guest_of root q <> ": " <> m
      → Outcome fs root guest (err e)
  no_target : {e : String} (q : HostPath) → fs.read_link q ≡ err e → Outcome fs root guest (err e)
  too_many :
      {e : String}
      → e ≡ guest <> ": too many levels of symbolic links"
      → Outcome fs root guest (err e)

-- A link of Linux holds 4095 bytes at most, so no more characters.
abbrev pub HasShortLinks : HostFs → Type 0
HasShortLinks fs = (q : HostPath) (t : String) → fs.read_link q ≡ ok t → count t ≤ 4095

same_path_refl : (p : HostPath) → same_path p p ≡ true
same_path_refl [] = refl
same_path_refl (n ∷ p) = rw (==_refl n) (same_path_refl p)

length-keep : (p : String → Bool) (l : List String) → length (keep p l) ≤ length l
length-keep p [] = omega arith
length-keep p (x ∷ l) = elim (Bool-cases (p x)) [
  | inl e ↦ rw e (omega (arith, length-keep p l))
  | inr e ↦ rw e (omega (arith, length-keep p l))
]

length-components : (t : String) → length (components t) ≤ count t + 1
unfolding components
length-components t =
    omega
      (arith, length-keep (λ p. not (is_empty p || p == ".")) (split b'/' t), length-split b'/' t)

length-strip_prefix :
    (l path rest : List String) → strip_prefix l path ≡ some rest → length rest ≤ length path
length-strip_prefix [] path rest e = let e' = ap length (some-injective _ _ e) in omega (arith, e')
length-strip_prefix (r ∷ l) [] rest e = cc
length-strip_prefix (r ∷ l) (p ∷ path) rest e = elim (Bool-cases (r == p)) [
  | inl same ↦
      let h : strip_prefix l path ≡ some rest = rw (← e, same) refl in
      omega (arith, length-strip_prefix l path rest h)
  | inr differ ↦ ground (arith, differ)
]

pub length-expand :
    (root : HostPath) (target : String) (resolved : HostPath) (rest : List String) (hops : ℕ)
    → length (expand root target resolved rest hops).pending ≤ count target + 1 + length rest
unfolding expand expand_below
length-expand root target resolved rest hops = elim (Bool-cases (is_prefix "/" target)) [
  | inl absolute ↦ rw absolute (
      rooted (strip_prefix (reverse root) (components target))
        (length-strip_prefix (reverse root) (components target)))
  | inr relative ↦
      rw relative
        (omega (arith, length-append {0} (components target) rest, length-components target))
]
  where
    rooted :
        (o : Option (List String))
        → ((inner : List String) → o ≡ some inner → length inner ≤ length (components target))
        → length (expand_below root (components target) o rest hops).pending
          ≤ count target + 1 + length rest
    rooted none h =
        omega (arith, length-append {0} (components target) rest, length-components target)
    rooted (some inner) h =
        omega (arith, length-append {0} inner rest, length-components target, h inner refl)

module _ (fs : HostFs) (root : HostPath) where
  pub expand-IsReal :
      (target : String) (resolved : HostPath) (rest : List String) (hops : ℕ)
      → IsReal fs root resolved
      → IsReal fs root (expand root target resolved rest hops).resolved
  unfolding expand expand_below
  expand-IsReal target resolved rest hops h = elim (Bool-cases (is_prefix "/" target)) [
    | inl absolute ↦ rw absolute (rooted (strip_prefix (reverse root) (components target)))
    | inr relative ↦ rw relative h
  ]
    where
      rooted :
          (o : Option (List String))
          → IsReal fs root (expand_below root (components target) o rest hops).resolved
      rooted none = top refl
      rooted (some inner) = top refl

  pub hops-expand :
      (target : String) (resolved : HostPath) (rest : List String) (hops : ℕ)
      → (expand root target resolved rest hops).hops ≡ hops
  unfolding expand expand_below
  hops-expand target resolved rest hops = elim (Bool-cases (is_prefix "/" target)) [
    | inl absolute ↦ rw absolute (rooted (strip_prefix (reverse root) (components target)))
    | inr relative ↦ rw relative refl
  ]
    where
      rooted :
          (o : Option (List String))
          → (expand_below root (components target) o rest hops).hops ≡ hops
      rooted none = refl
      rooted (some inner) = refl

  pub up-IsReal :
      (guest : String) (p : HostPath) → IsReal fs root p → IsReal fs root (up fs root guest p)
  up-IsReal guest [] h = h
  up-IsReal guest (n ∷ p) (top e) =
      let here : same_path (n ∷ p) root ≡ true = rw (← e) (same_path_refl (n ∷ p)) in
      rw here (top e)
  up-IsReal guest (n ∷ p) (below h plain entry) = elim (Bool-cases (same_path (n ∷ p) root)) [
    | inl here ↦ rw here (below h plain entry)
    | inr further ↦ rw further h
  ]

  pub IsReal-inside :
      {p : HostPath} → IsReal fs root p → (names : List String) × (p ≡ names ++ root)
  IsReal-inside (top e) = ([], e)
  IsReal-inside (below {n} h plain entry) =
      let (names, e) = IsReal-inside h in (n ∷ names, ap (λ q. n ∷ q) e)

reverse_aux-append :
    (l m r : List String) → reverse_aux (l ++ m) r ≡ reverse_aux m (reverse_aux l r)
reverse_aux-append [] m r = refl
reverse_aux-append (n ∷ l) m r = reverse_aux-append l m (n ∷ r)

reverse_aux-rest : (l r : List String) → reverse_aux l r ≡ reverse l ++ r
reverse_aux-rest [] r = refl
reverse_aux-rest (n ∷ l) r =
    reverse_aux-rest l (n ∷ r)
    ∙ sym (append_assoc (reverse l) (n ∷ []) r)
    ∙ ap (λ q. q ++ r) (sym (reverse_aux-rest l (n ∷ [])))

strip_prefix-append : (l m : List String) → strip_prefix l (l ++ m) ≡ some m
strip_prefix-append [] m = refl
strip_prefix-append (n ∷ l) m = rw (==_refl n) (strip_prefix-append l m)

-- What is below the root begins with it.
pub strip-below :
    (root names : List String)
    → strip_prefix (reverse root) (reverse (names ++ root)) ≡ some (reverse names)
strip-below root names =
    rw (reverse_aux-append names root [], reverse_aux-rest root (reverse names))
      (strip_prefix-append (reverse root) (reverse names))
