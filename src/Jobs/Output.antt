-- ===== src/Jobs/Output.antt =====
-- The output of a job, in crates/mc-sandbox/src/jobs.rs: a bounded text with a read cursor. Lengths
-- and positions count the bytes of the UTF-8.
pub mod Accounted
use Prim.Native.Char.{len_utf8}
use Prim.Native.String.{[], ◌∷◌, ◌++◌, len}
use mobile_coder.Prelude.{ℕ, suc, zero, ◌+◌, ◌-◌, ◌*◌, String, leb, if◌then◌else◌}

pub record Buffer : Type 0 where
  pub text : String
  pub cursor : ℕ
  pub dropped : ℕ

abbrev pub max_buffer : ℕ
max_buffer = 256 * 1024

abbrev pub new : Buffer
new = record { text = ""; cursor = 0; dropped = 0 }

-- The first character boundary at or behind a position: where the loop over `cut` ends.
unfoldable pub boundary_from : ℕ → String → ℕ
boundary_from zero s = 0
boundary_from (suc n) [] = 0
boundary_from (suc n) (c ∷ s) = len_utf8 c + boundary_from (suc n - len_utf8 c) s

-- The text behind a position that is a character boundary.
unfoldable pub skip_bytes : ℕ → String → String
skip_bytes zero s = s
skip_bytes (suc n) [] = []
skip_bytes (suc n) (c ∷ s) = skip_bytes (suc n - len_utf8 c) s

trim_front : ℕ → Buffer → Buffer
trim_front cut b = record b {
  text = skip_bytes cut b.text;
  dropped = b.dropped + cut;
  cursor = b.cursor - cut;
}

-- The bound is a parameter of the model; `push` is the call with the constant.
unfoldable pub push_bounded : ℕ → String → Buffer → Buffer
unfolding trim_front
push_bounded bound chunk b =
    let text = b.text ++ chunk in
    if leb (len text) bound
    then record b { text = text }
    else trim_front (boundary_from (len text - bound) text) (record b { text = text })

unfoldable pub push : String → Buffer → Buffer
push chunk b = push_bounded max_buffer chunk b

-- `take`: what has not been read, and the cursor moved behind it.
unfoldable pub read_new : Buffer → String × Buffer
read_new b = (skip_bytes b.cursor b.text, record b { cursor = len b.text })

unfoldable pub unread : Buffer → ℕ
unread b = len b.text - b.cursor
