-- ===== src/Clipboard.antt =====
-- crates/mc-ui/src/clipboard.rs: copies, by the writer of the platform or by whoever polls, and the
-- message about the last one. Instants are numbers of a clock that the caller reads, in milliseconds.
-- The clipboard of the platform is the outside. No lock is ever poisoned.
use mobile_coder.Prelude.{
  ℕ, ◌<>◌, ◌-◌, String, false, Option, none, some, ltb, if◌then◌else◌, ◌≡◌, refl,
}
use mobile_coder.Prelude.Text.{is_empty}
use mobile_coder.Sandbox.{Ran, ok, err}

abbrev pub toast_lifetime : ℕ
toast_lifetime = 2000

module _ (W : Type 0) where
  -- `WRITER`, `PENDING` and `TOAST`
  pub record Clipboard : Type 0 where
    pub writer : Option (String → W → Ran Unit × W)
    pub pending : Option String
    pub toast : Option (String × ℕ)
    pub world : W

  abbrev set_once :
      (String → W → Ran Unit × W)
      → Option (String → W → Ran Unit × W)
      → Option (String → W → Ran Unit × W)
  set_once f none = some f
  set_once f (some g) = some g

  abbrev pub install : (String → W → Ran Unit × W) → Clipboard → Clipboard
  install f c = record c { writer = set_once f c.writer }

  abbrev message : Ran Unit → String
  message (ok done) = "Copied"
  message (err e) = "Could not copy: " <> e

  abbrev told : ℕ → Ran Unit → Clipboard → Clipboard
  told now outcome c = record c { toast = some (message outcome, now) }

  -- Without a writer only the newest copy is kept.
  abbrev copied : Option (String → W → Ran Unit × W) → String → ℕ → Clipboard → Clipboard
  copied none text now c = told now (ok tt) (record c { pending = some text })
  copied (some f) text now c =
      let (outcome, w) = f text c.world in told now outcome (record c { world = w })

  unfoldable pub copy : String → ℕ → Clipboard → Clipboard
  copy text now c = if is_empty text then c else copied c.writer text now c

  abbrev pub take_pending : Clipboard → Option String × Clipboard
  take_pending c = (c.pending, record c { pending = none })

  abbrev shown : Option (String × ℕ) → ℕ → Clipboard → Option String × Clipboard
  shown none now c = (none, c)
  shown (some (text, at)) now c =
      if ltb toast_lifetime (now - at) then (none, record c { toast = none }) else (some text, c)

  unfoldable pub toast : ℕ → Clipboard → Option String × Clipboard
  toast now c = shown c.toast now c

  -- Of copies without a writer the newest is taken, once.
  pub take_pending-copy :
      (text : String) (now : ℕ) (c : Clipboard)
      → is_empty text ≡ false
      → c.writer ≡ none
      → ((take_pending (copy text now c)).0 ≡ some text)
        × ((take_pending (take_pending (copy text now c)).1).0 ≡ none)
  unfolding copy
  take_pending-copy text now c full bare = rw full (rw bare (refl, refl))
