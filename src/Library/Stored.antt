-- ===== src/Library/Stored.antt =====
-- Saving and loading chats (crates/mc-core/src/library.rs, crates/mc-core/src/store.rs).
use mobile_coder.Prelude.{
  ℕ, ◌≡◌, refl, sym, ap, ◌∙◌, subst, All, Bool, true, false, inl, inr, none, some, some-injective,
  List, [], ◌∷◌, eqb, eqb_refl, eqb→eq, Bool-cases,
}
use mobile_coder.Session.{SessionId, Session}
use mobile_coder.Library.{ChatFile, Content, session_in, load, write, save, delete}

eqb-trans_false : (a b c : ℕ) → eqb b c ≡ false → eqb a b ≡ true → eqb a c ≡ false
eqb-trans_false a b c ne e = rw (eqb→eq a b e) ne

module _ {V : Type 0} where
  load-write :
      (id : SessionId) (c : Content V) (now : ℕ) (files : List (ChatFile V))
      → load id (write id c now files) ≡ session_in c
  unfolding load write
  load-write id c now [] = rw (eqb_refl id)
  load-write id c now (f ∷ fs) = elim (Bool-cases (eqb f.name id)) [
    | inl e ↦ rw (e, e) refl
    | inr e ↦ rw (e, e) (load-write id c now fs)
  ]

  load_other-write :
      (id other : SessionId) (c : Content V) (now : ℕ) (files : List (ChatFile V))
      → eqb id other ≡ false
      → load other (write id c now files) ≡ load other files
  unfolding load write
  load_other-write id other c now [] ne = rw ne
  load_other-write id other c now (f ∷ fs) ne = elim (Bool-cases (eqb f.name id)) [
    | inl e ↦ rw (e, eqb-trans_false f.name id other ne e)
    | inr e ↦ elim (Bool-cases (eqb f.name other)) [
      | inl o ↦ rw (e, o)
      | inr o ↦ rw (e, o) (load_other-write id other c now fs ne)
    ]
  ]

  -- A chat that was saved is loaded as it was, and a save that failed changed nothing.
  pub load-save :
      (now : ℕ) (s : Session V) (files : List (ChatFile V))
      → (load s.id (save true now s files) ≡ some s) × (save false now s files ≡ files)
  unfolding save
  load-save now s files = (load-write s.id _ now files, refl)

  -- Saving a chat, or failing to, changes what is loaded for no other id.
  pub load_other-save :
      (ok : Bool) (now : ℕ) (s : Session V) (other : SessionId) (files : List (ChatFile V))
      → eqb s.id other ≡ false
      → load other (save ok now s files) ≡ load other files
  unfolding save
  load_other-save true now s other files ne = load_other-write s.id other _ now files ne
  load_other-save false now s other files ne = refl

  pub load-delete_same :
      (id : SessionId) (files : List (ChatFile V)) → load id (delete none id files).1 ≡ none
  unfolding load delete
  load-delete_same id [] = refl
  load-delete_same id (f ∷ fs) = elim (Bool-cases (eqb f.name id)) [
    | inl e ↦ rw e (load-delete_same id fs)
    | inr e ↦ rw (e, e) (load-delete_same id fs)
  ]

  pub load-delete_other :
      (id other : SessionId) (files : List (ChatFile V))
      → eqb id other ≡ false
      → load other (delete none id files).1 ≡ load other files
  unfolding load delete
  load-delete_other id other [] ne = refl
  load-delete_other id other (f ∷ fs) ne = elim (Bool-cases (eqb f.name id)) [
    | inl e ↦ rw (e, eqb-trans_false f.name id other ne e) (load-delete_other id other fs ne)
    | inr e ↦ elim (Bool-cases (eqb f.name other)) [
      | inl o ↦ rw (e, o)
      | inr o ↦ rw (e, o) (load-delete_other id other fs ne)
    ]
  ]

  -- A chat that was deleted is gone, and what is loaded for any other id is as before.
  pub load-delete :
      (id other : SessionId) (files : List (ChatFile V))
      → eqb id other ≡ false
      → (load id (delete none id files).1 ≡ none)
        × (load other (delete none id files).1 ≡ load other files)
  load-delete id other files ne = (load-delete_same id files, load-delete_other id other files ne)

  -- A file is named by the chat that is in it.
  abbrev pub IsNamedFile : ChatFile V → Type 0
  IsNamedFile f = (s : Session V) → session_in f.content ≡ some s → s.id ≡ f.name

  pub load-IsNamed :
      (id : SessionId) (files : List (ChatFile V)) {s : Session V}
      → All IsNamedFile files
      → load id files ≡ some s
      → s.id ≡ id
  unfolding load
  load-IsNamed id [] h e = cc
  load-IsNamed id (f ∷ fs) {s} (n, h) e = elim (Bool-cases (eqb f.name id)) [
    | inl same ↦ n s (in_file same) ∙ eqb→eq f.name id same
    | inr ne ↦ load-IsNamed id fs h (in_rest ne)
  ]
    where
      in_file : eqb f.name id ≡ true → session_in f.content ≡ some s
      in_file same = sym (rw same refl) ∙ e

      in_rest : eqb f.name id ≡ false → load id fs ≡ some s
      in_rest ne = sym (rw ne refl) ∙ e

  pub save-IsNamed :
      (ok : Bool) (now : ℕ) (s : Session V) (files : List (ChatFile V))
      → All IsNamedFile files
      → All IsNamedFile (save ok now s files)
  unfolding save write
  save-IsNamed false now s files h = h
  save-IsNamed true now s [] h = ((λ t e. cc), tt)
  save-IsNamed true now s (f ∷ fs) (n, h) = elim (Bool-cases (eqb f.name s.id)) [
    | inl same ↦
        rw same
          ((λ t e. ap Session.id (sym (some-injective _ _ e)) ∙ sym (eqb→eq f.name s.id same)), h)
    | inr ne ↦ rw ne (n, save-IsNamed true now s fs h)
  ]

  -- Two chats saved one after the other are both loaded as they were.
  pub save_both :
      (now later : ℕ) (s t : Session V) (files : List (ChatFile V))
      → (t.id ≡ s.id → t ≡ s)
      → let files' = save true later t (save true now s files) in
        (load s.id files' ≡ some s) × (load t.id files' ≡ some t)
  save_both now later s t files same =
      let files1 = save true now s files in
      let own = (load-save later t files1).0 in
      elim (Bool-cases (eqb t.id s.id)) [
        | inl e ↦ (
          subst (λ u. load u.id (save true later t files1) ≡ some u) (same (eqb→eq _ _ e)) own,
          own,
        )
        | inr e ↦ (load_other-save true later t s.id files1 e ∙ (load-save now s files).0, own)
      ]
