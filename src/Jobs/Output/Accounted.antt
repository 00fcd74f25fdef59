-- ===== src/Jobs/Output/Accounted.antt =====
-- The buffer of a job keeps its bound and accounts for what it drops (crates/mc-sandbox/src/jobs.rs).
use Prim.Native.Char.{Char, len_utf8}
use Prim.Native.String.{[], ◌∷◌, len}
use Prim.Native.String.len as length_of
use Prim.Native.String.append as appending
use text.Mathlib.TextPositions.{len_utf8-pos}
use text.Mathlib.TextLemmas.{append_assoc as text_assoc, append-nil}
use mobile_coder.Prelude.{
  sym, ap, List, ℕ, zero, suc, ◌+◌, ◌-◌, ◌≤◌, ◌≡◌, refl, ◌∙◌, ◌<>◌, String, inl, inr, arith, leb,
  leb→le, le→leb, Bool-cases,
}
use mobile_coder.Jobs.Output.{Buffer, boundary_from, skip_bytes, push_bounded, read_new, unread}

skip_bytes-suc :
    (n k : ℕ) (c : Char) (s : String)
    → len_utf8 c ≡ suc k
    → skip_bytes (suc (k + n)) (c ∷ s) ≡ skip_bytes n s
unfolding skip_bytes
skip_bytes-suc n k c s e =
    let d : suc (k + n) - len_utf8 c ≡ n = omega arith in rw (skip_bytes, d) refl

-- Skipping one character, whatever its length.
skip_bytes-char :
    (n : ℕ) (c : Char) (s : String) → skip_bytes (len_utf8 c + n) (c ∷ s) ≡ skip_bytes n s
skip_bytes-char n c s =
    let (k, e) = len_utf8-pos c in
    let sum : len_utf8 c + n ≡ suc (k + n) = omega arith in rw sum (skip_bytes-suc n k c s e)

len-append : (s t : String) → len (s <> t) ≡ len s + len t
len-append [] t = rw (appending.nil t) (omega (arith, length_of.nil))
len-append (c ∷ s) t =
    rw (appending.cons c s t)
      (omega (arith, length_of.cons c (s <> t), length_of.cons c s, len-append s t))

-- The boundary lies at or behind the position, and what is behind it is what is left.
boundary_from-splits :
    (n : ℕ) (s : String)
    → n ≤ len s
    → (n ≤ boundary_from n s) × (boundary_from n s + len (skip_bytes (boundary_from n s) s) ≡ len s)
unfolding boundary_from skip_bytes
boundary_from-splits zero s h = (omega arith, omega arith)
boundary_from-splits (suc n) [] h = absurd (omega (arith, length_of.nil))
boundary_from-splits (suc n) (c ∷ s) h =
    let m = suc n - len_utf8 c in
    let ih = boundary_from-splits m s (omega (arith, length_of.cons c s)) in
    (
      omega (arith, ih.0),
      rw (skip_bytes-char (boundary_from m s) c s) (omega (arith, length_of.cons c s, ih.1)),
    )

-- The cursor lies in the text.
abbrev pub IsBuffer : Buffer → Type 0
IsBuffer b = b.cursor ≤ len b.text

-- Behind a push a job buffer is within its bound, every byte that was pushed is in it or counted as
-- dropped, and the read cursor lies in the text, given that it did before.
pub push_bounded-accounted :
    (bound : ℕ) (chunk : String) (b : Buffer)
    → IsBuffer b
    → let b' = push_bounded bound chunk b in
      (len b'.text ≤ bound)
      × (b'.dropped + len b'.text ≡ b.dropped + len b.text + len chunk)
      × IsBuffer b'
unfolding push_bounded
push_bounded-accounted bound chunk b h =
    let text = b.text <> chunk in
    let total = len-append b.text chunk in
    elim (Bool-cases (leb (len text) bound)) [
      | inl fits ↦ rw fits (leb→le _ _ fits, omega (arith, total), omega (arith, total))
      | inr long ↦
          let (behind, whole) = boundary_from-splits (len text - bound) text (omega arith) in
          rw long (omega arith, omega (arith, total), omega (arith, total))
    ]

skip_bytes-append : (s t : String) → skip_bytes (len s) (s <> t) ≡ t
unfolding skip_bytes
skip_bytes-append [] t = appending.nil t
skip_bytes-append (c ∷ s) t =
    rw (appending.cons c s t, length_of.cons c s)
      (skip_bytes-char (len s) c (s <> t) ∙ skip_bytes-append s t)

-- Chunks that are pushed one behind the other.
abbrev pub push_each : ℕ → List String → Buffer → Buffer
push_each bound List.[] b = b
push_each bound (List.◌∷◌ chunk chunks) b = push_each bound chunks (push_bounded bound chunk b)

abbrev pub joined : List String → String
joined List.[] = ""
joined (List.◌∷◌ chunk chunks) = chunk <> joined chunks

push_bounded-fits :
    (bound : ℕ) (chunk : String) (b : Buffer)
    → len (b.text <> chunk) ≤ bound
    → push_bounded bound chunk b ≡ record b { text = b.text <> chunk }
unfolding push_bounded
push_bounded-fits bound chunk b fits = rw (le→leb _ _ fits) refl

push_each-fits :
    (bound : ℕ) (chunks : List String) (b : Buffer)
    → len (b.text <> joined chunks) ≤ bound
    → push_each bound chunks b ≡ record b { text = b.text <> joined chunks }
push_each-fits bound List.[] b fits = ap (λ t. record b { text = t }) (sym (append-nil b.text))
push_each-fits bound (List.◌∷◌ chunk chunks) b fits =
    let rest = joined chunks in
    let b' : Buffer = record b { text = b.text <> chunk } in
    let assoc = text_assoc b.text chunk rest in
    let total = len-append (b.text <> chunk) rest in
    let whole = ap len assoc in
    ap (push_each bound chunks) (push_bounded-fits bound chunk b (omega (arith, total, whole)))
    ∙ push_each-fits bound chunks b' (omega (arith, whole))
    ∙ ap (λ t. record b { text = t }) assoc

-- Where what is in a job buffer and the chunks that are pushed behind a read are together within
-- the bound, the next read returns these chunks joined, all of them and nothing else, and leaves
-- nothing unread.
pub read_new-push_each :
    (bound : ℕ) (chunks : List String) (b : Buffer)
    → len (b.text <> joined chunks) ≤ bound
    → let after = read_new (push_each bound chunks (read_new b).1) in
      (after.0 ≡ joined chunks) × (unread after.1 ≡ 0)
unfolding read_new unread
read_new-push_each bound chunks b fits =
    rw (push_each-fits bound chunks (record b { cursor = len b.text }) fits)
      (skip_bytes-append b.text (joined chunks), omega arith)
