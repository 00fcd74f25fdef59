-- ===== src/Worker/Saved.antt =====
-- What the worker leaves on disk (crates/mc-agent/src/worker.rs).
use mobile_coder.Prelude.{
  ◌≡◌, refl, ◌∙◌, sym, ap, true, false, Option, none, some, some-injective, List, All, eqb,
  eqb_refl,
}
use mobile_coder.Json.{Json}
use mobile_coder.Session.{SessionId, Project, Session, new}
use mobile_coder.Library.{ChatFile, load, save}
use mobile_coder.Library.Stored.{IsNamedFile, load-save, load-IsNamed, save-IsNamed, save_both}
use mobile_coder.Worker.{
  open_chat, new_chat, Outside, State, store, opened, start_empty, open_or_new, serve,
}

module _ (J : Json) (O : Outside J) (project : Project) where
  open J use {Value}
  open O use {host}

  -- The chat that a worker with a library would load for an id.
  abbrev pub on_disk : SessionId → State J O project → Option (Session Value)
  on_disk id st = opened J O project id st

  abbrev pub with_disk :
      Session Value → List (ChatFile Value) → host.sandbox.World → State J O project
  with_disk s files w = record { session = s; files = some files; world = w }

  -- The chat that was left, and the one that is shown, are on disk as they are.
  abbrev pub BothStored : Session Value → State J O project → Type 0
  BothStored s st = (on_disk s.id st ≡ some s) × (on_disk st.session.id st ≡ some st.session)

  abbrev pub IsFresh : host.sandbox.World → Session Value → Type 0
  IsFresh w s = eqb (O.fresh_id w).0 s.id ≡ false

  module _ (writable : (w : host.sandbox.World) → O.can_write w ≡ true) where
    store-with_disk :
        (s : Session Value) (files : List (ChatFile Value)) (w : host.sandbox.World)
        → store J O project (with_disk s files w) ≡ with_disk s (save true (O.now w) s files) w
    unfolding store
    store-with_disk s files w = rw (writable w) refl

    start_empty-with_disk :
        (s : Session Value) (files : List (ChatFile Value)) (w : host.sandbox.World)
        → start_empty J O project (with_disk s files w)
          ≡ with_disk (new J (O.fresh_id w).0 project) files (O.fresh_id w).1
    unfolding start_empty
    start_empty-with_disk s files w = refl

    open_or_new-with_disk :
        (id : SessionId) (s : Session Value) (files : List (ChatFile Value))
        (w : host.sandbox.World) {t : Session Value}
        → load id files ≡ some t
        → open_or_new J O project id (with_disk s files w) ≡ with_disk t files w
    unfolding open_or_new
    open_or_new-with_disk id s files w e = rw (open_or_new, e) refl

    open_missing-with_disk :
        (id : SessionId) (s : Session Value) (files : List (ChatFile Value))
        (w : host.sandbox.World)
        → load id files ≡ none
        → open_or_new J O project id (with_disk s files w)
          ≡ start_empty J O project (with_disk s files w)
    unfolding open_or_new
    open_missing-with_disk id s files w e = rw (open_or_new, e) refl

    fresh-BothStored :
        (s : Session Value) (files : List (ChatFile Value)) (w : host.sandbox.World)
        → IsFresh w s
        → BothStored s
            (store J O project (start_empty J O project (store J O project (with_disk s files w))))
    unfolding new
    fresh-BothStored s files w ne =
        let files1 = save true (O.now w) s files in
        rw
          (
            store-with_disk s files w,
            start_empty-with_disk s files1 w,
            store-with_disk (new J (O.fresh_id w).0 project) files1 (O.fresh_id w).1,
          )
          (save_both (O.now w) (O.now (O.fresh_id w).1) s (new J (O.fresh_id w).0 project) files
            (λ e. cc (eqb_refl s.id)))

    open-BothStored :
        (id : SessionId) (s : Session Value) (files : List (ChatFile Value))
        (w : host.sandbox.World) (r : Option (Session Value))
        → All IsNamedFile files
        → IsFresh w s
        → load id (save true (O.now w) s files) ≡ r
        → BothStored s (
            store J O project
              (open_or_new J O project id (store J O project (with_disk s files w))))
    open-BothStored id s files w none named ne e =
        rw
          (
            store-with_disk s files w,
            open_missing-with_disk id s _ w e,
            sym (store-with_disk s files w),
          )
          (fresh-BothStored s files w ne)
    open-BothStored id s files w (some t) named ne e =
        let files1 = save true (O.now w) s files in
        rw
          (
            store-with_disk s files w,
            open_or_new-with_disk id s files1 w e,
            store-with_disk t files1 w,
          )
          (save_both (O.now w) (O.now w) s t files same)
      where
        same : t.id ≡ s.id → t ≡ s
        same p =
            let q = load-IsNamed id _ (save-IsNamed true (O.now w) s files named) e in
            some-injective _ _ (
              sym e
              ∙ ap (λ i. load i (save true (O.now w) s files)) (sym q ∙ p)
              ∙ (load-save (O.now w) s files).0)

    -- On a disk that can be written and where files are named by the chats in them, a worker that
    -- opens a chat, or starts one, leaves both the chat that was left and the one that is shown on
    -- disk as they are, given that a fresh id is not the id of the chat that is left.
    pub switch_stores_both :
        (id : SessionId) (s : Session Value) (files : List (ChatFile Value))
        (w : host.sandbox.World)
        → All IsNamedFile files
        → IsFresh w s
        → BothStored s (serve J O project (open_chat id) (with_disk s files w)).0
          × BothStored s (serve J O project new_chat (with_disk s files w)).0
    unfolding serve
    switch_stores_both id s files w named ne =
        (open-BothStored id s files w _ named ne refl, fresh-BothStored s files w ne)
