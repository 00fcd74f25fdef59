-- ===== src/GuestFs/Ends.antt =====
-- The end of the loop over links (`resolve` of crates/mc-sandbox/src/fs.rs).
use mobile_coder.Prelude.{
  ℕ, zero, suc, ◌+◌, ◌-◌, ◌*◌, ◌≤◌, ◌<◌, ◌≡◌, refl, ap, ◌∙◌, String, Bool, true, false, inl, inr,
  some, List, [], ◌∷◌, reverse, ◌==◌, ltb, Bool-cases, length, arith,
}
use mobile_coder.Sandbox.{Ran, ok, err}
use mobile_coder.GuestFs.{
  HostPath, HostFs, strip_prefix, State, Step, done, next, follow, enter, checked, step_at, after,
  loop, start, resolve, max_link_hops,
}
use mobile_coder.GuestFs.Inside.{
  IsReal, below, top, Outcome, real, no_entry, no_target, too_many, HasShortLinks, length-expand,
  expand-IsReal, hops-expand, up-IsReal, IsReal-inside, strip-below,
}

-- The rounds that a state can still take: a link puts in 4096 names at most.
abbrev rounds : State → ℕ
rounds s = length s.pending + (40 - s.hops) * 4097

module _ (fs : HostFs) (root : HostPath) (guest : String) where
  abbrev IsGood : State → Type 0
  IsGood s = IsReal fs root s.resolved × (s.hops ≤ 40)

  -- A round ends well, or goes on in a good state with fewer rounds to come.
  abbrev HasGood : ℕ → Step → Type 0
  HasGood n (done r) = Outcome fs root guest r
  HasGood n (next s) = IsGood s × (rounds s < n)

  checked-Outcome :
      (p : HostPath)
      → IsReal fs root p
      → Outcome fs root guest (checked fs root guest p (strip_prefix (reverse root) (reverse p)))
  unfolding checked
  checked-Outcome p h =
      let (names, e) = IsReal-inside fs root h in
      let found : strip_prefix (reverse root) (reverse p) ≡ some (reverse names) =
        ap (λ q. strip_prefix (reverse root) (reverse q)) e ∙ strip-below root names in
      rw found (real h)

  follow-HasGood :
      (target : Ran String) (q p : HostPath) (rest : List String) (hops n : ℕ)
      → HasShortLinks fs
      → fs.read_link q ≡ target
      → IsReal fs root p
      → hops < 40
      → length rest + (40 - hops) * 4097 < n
      → HasGood n (follow fs root guest target p rest (suc hops))
  unfolding follow
  follow-HasGood (err e) q p rest hops n short said h few more = no_target q said
  follow-HasGood (ok t) q p rest hops n short said h few more =
      let same = hops-expand fs root t p rest (suc hops) in
      (
        (expand-IsReal fs root t p rest (suc hops) h, omega (arith, same)),
        omega (arith, same, short q t said, length-expand root t p rest (suc hops)),
      )

  enter-HasGood :
      (entry : Ran Bool) (part : String) (p : HostPath) (rest : List String) (hops n : ℕ)
      → HasShortLinks fs
      → fs.is_symlink (part ∷ p) ≡ entry
      → (part == "..") ≡ false
      → IsReal fs root p
      → hops ≤ 40
      → length rest + (40 - hops) * 4097 < n
      → HasGood n (enter fs root guest entry part p rest hops)
  unfolding enter
  enter-HasGood (err e) part p rest hops n short said plain h few more =
      no_entry (part ∷ p) e said refl
  enter-HasGood (ok false) part p rest hops n short said plain h few more =
      ((below h plain said, few), more)
  enter-HasGood (ok true) part p rest hops n short said plain h few more =
      elim (Bool-cases (ltb max_link_hops (hops + 1))) [
        | inl over ↦ rw over (too_many refl)
        | inr under ↦
            let less : hops < 40 = ground arith in
            let step : hops + 1 ≡ suc hops = omega arith in
            rw (under, step)
              (follow-HasGood (fs.read_link (part ∷ p)) (part ∷ p) p rest hops n short refl h less
                more)
      ]

  step_at-HasGood :
      (pending : List String) (p : HostPath) (hops : ℕ)
      → HasShortLinks fs
      → IsReal fs root p
      → hops ≤ 40
      → HasGood (length pending + (40 - hops) * 4097) (step_at fs root guest pending p hops)
  unfolding step_at
  step_at-HasGood [] p hops short h few = checked-Outcome p h
  step_at-HasGood (part ∷ rest) p hops short h few = elim (Bool-cases (part == "..")) [
    | inl back ↦ rw back ((up-IsReal fs root guest p h, few), omega arith)
    | inr on ↦ rw on (
        enter-HasGood (fs.is_symlink (part ∷ p)) part p rest hops
          (length (part ∷ rest) + (40 - hops) * 4097) short refl on h few (omega arith))
  ]

  after-Outcome :
      (fuel : ℕ) (s : Step)
      → ((t : State)
          → IsGood t
          → rounds t < fuel
          → (r : Ran HostPath) × (loop fs root guest fuel t ≡ some r) × Outcome fs root guest r)
      → HasGood fuel s
      → (r : Ran HostPath) × (after fs root guest (loop fs root guest fuel) s ≡ some r)
        × Outcome fs root guest r
  unfolding after
  after-Outcome fuel (done r) rest h = (r, refl, h)
  after-Outcome fuel (next t) rest (good, less) = rest t good less

  loop-Outcome :
      (fuel : ℕ) (s : State)
      → HasShortLinks fs
      → IsGood s
      → rounds s < fuel
      → (r : Ran HostPath) × (loop fs root guest fuel s ≡ some r) × Outcome fs root guest r
  unfolding loop
  loop-Outcome zero s short good less = absurd (omega arith)
  loop-Outcome (suc fuel) s short (h, few) less =
      after-Outcome fuel (step_at fs root guest s.pending s.resolved s.hops)
        (λ t good more. loop-Outcome fuel t short good more)
        (widen (step_at fs root guest s.pending s.resolved s.hops)
          (step_at-HasGood s.pending s.resolved s.hops short h few))
    where
      widen : (t : Step) → HasGood (rounds s) t → HasGood fuel t
      widen (done r) ends = ends
      widen (next t) (good, more) = (good, omega arith)

  -- On a host whose links hold 4095 bytes at most, the resolution of any guest path ends: with a
  -- path that is the root or below it and has no link and no .. on the way, or with an error of the
  -- host for a path that it looked at, or with the error of too many links.
  pub resolve-Outcome :
      HasShortLinks fs
      → (r : Ran HostPath) × (resolve fs root guest ≡ some r) × Outcome fs root guest r
  unfolding resolve
  resolve-Outcome short =
      loop-Outcome (suc (length (start fs root guest).pending + 40 * 4097)) (start fs root guest)
        short (top refl, omega arith) (omega arith)
