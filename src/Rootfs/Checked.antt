-- ===== src/Rootfs/Checked.antt =====
-- What is installed was checked (`ensure` of crates/mc-sandbox/src/rootfs.rs).
use mobile_coder.Prelude.{
  ℕ, ◌≡◌, refl, ap, ◌∙◌, ◌⊎◌, String, true, inl, inr, Option, none, some, List, ◌==◌, ==_refl,
  Bool-cases,
}
use mobile_coder.Prelude.Text.{lowered}
use mobile_coder.Sandbox.{Ran, ok, err}
use mobile_coder.Rootfs.{
  RootfsSpec, Progress, Disk, Done, fine, failed, hex, marker_for, is_ready_marker, is_ready,
  and_then, on_disk, finished, compared, verify, install, ensure, download_resumable,
}

-- What the disk does to the marker. Of the other operations nothing is asked.
pub record KeepsMarker {W : Type 0} (D : Disk W) : Type 0 where
  pub progress : (p : Progress) (w : W) → D.marker (D.progress p w) ≡ D.marker w
  pub remove_archive : (w : W) → D.marker (D.remove_archive w).1 ≡ D.marker w
  pub write_marker :
      (m : String) (w w' : W) → D.write_marker m w ≡ (ok tt, w') → D.marker w' ≡ some m

module _ {W : Type 0} (D : Disk W) where
  -- How an installation came about, from the disk behind the download: where a checksum is given,
  -- what the disk holds there was digested, the digest is the checksum, and the installation starts
  -- right behind that.
  abbrev pub IsVerified : RootfsSpec → Option String → W → Done String × W → Type 0
  IsVerified spec none w r = r ≡ install D spec w
  IsVerified spec (some expected) w r =
      (bytes : List ℕ) × (w' : W) × (D.digest (D.progress Progress.verifying w) ≡ (ok bytes, w'))
      × ((lowered (hex bytes) == lowered expected) ≡ true)
      × (r ≡ install D spec w')

  -- An answer without an error is the destination, and it is ready then.
  abbrev pub IsInstalled : RootfsSpec → Done String × W → Type 0
  IsInstalled spec (fine dest, w) = (dest ≡ spec.dest) × (is_ready D spec w ≡ true)
  IsInstalled spec (failed e, w) = Unit

  -- The same, of an answer without an error.
  abbrev pub IsVerifiedFine : RootfsSpec → W → Done String × W → Type 0
  IsVerifiedFine spec w (fine dest, w') = IsVerified spec spec.sha256 w (fine dest, w')
  IsVerifiedFine spec w (failed e, w') = Unit

  abbrev pub WasChecked : RootfsSpec → W → Done String × W → Type 0
  WasChecked spec w (fine dest, w') =
      (downloaded : W) × (download_resumable D spec w ≡ (fine tt, downloaded))
      × IsVerified spec spec.sha256 downloaded (fine dest, w')
  WasChecked spec w (failed e, w') = Unit

  and_then-IsInstalled :
      {A : Type 0} (spec : RootfsSpec) (r : Done A × W) (f : A → W → Done String × W)
      → ((a : A) (w : W) → IsInstalled spec (f a w))
      → IsInstalled spec (and_then D r f)
  unfolding and_then
  and_then-IsInstalled spec (fine a, w) f h = h a w
  and_then-IsInstalled spec (failed e, w) f h = tt

  fine_only :
      (spec : RootfsSpec) (w : W) (r : Done String × W)
      → IsVerified spec spec.sha256 w r
      → IsVerifiedFine spec w r
  fine_only spec w (fine d, w') h = h
  fine_only spec w (failed e, w') h = tt

  compared-IsVerified :
      (spec : RootfsSpec) (expected : String) (bytes : List ℕ) (w w' : W)
      → spec.sha256 ≡ some expected
      → D.digest (D.progress Progress.verifying w) ≡ (ok bytes, w')
      → IsVerifiedFine spec w
          (and_then D (compared D (hex bytes) expected w') (λ v w2. install D spec w2))
  unfolding and_then
  compared-IsVerified spec expected bytes w w' given digested =
      elim (Bool-cases (lowered (hex bytes) == lowered expected)) [
        | inl same ↦
            rw same
              (fine_only spec w (install D spec w') (rw given (bytes, w', digested, same, refl)))
        | inr differs ↦ rw differs tt
      ]

  digested-IsVerified :
      (spec : RootfsSpec) (expected : String) (w : W) (r : Ran (List ℕ) × W)
      → spec.sha256 ≡ some expected
      → D.digest (D.progress Progress.verifying w) ≡ r
      → IsVerifiedFine spec w (
          and_then D
            (and_then D (on_disk D spec.archive r) (λ bytes w'. compared D (hex bytes) expected w'))
            (λ v w2. install D spec w2))
  unfolding and_then
  digested-IsVerified spec expected w (err e, w') given digested = tt
  digested-IsVerified spec expected w (ok bytes, w') given digested =
      compared-IsVerified spec expected bytes w w' given digested

  verify-IsVerified :
      (spec : RootfsSpec) (given : Option String) (w : W)
      → spec.sha256 ≡ given
      → IsVerifiedFine spec w (and_then D (verify D spec given w) (λ v w2. install D spec w2))
  unfolding verify and_then
  verify-IsVerified spec none w e = fine_only spec w (install D spec w) (rw e refl)
  verify-IsVerified spec (some expected) w e = digested-IsVerified spec expected w _ e refl

  checked_of :
      (spec : RootfsSpec) (w w1 : W) (r : Done String × W)
      → download_resumable D spec w ≡ (fine tt, w1)
      → IsVerifiedFine spec w1 r
      → WasChecked spec w r
  checked_of spec w w1 (fine dest, w') e h = (w1, e, h)
  checked_of spec w w1 (failed x, w') e h = tt

  downloaded-WasChecked :
      (spec : RootfsSpec) (w : W) (r : Done Unit × W)
      → download_resumable D spec w ≡ r
      → WasChecked spec w (
          and_then D r (λ got w1.
            and_then D (verify D spec spec.sha256 w1) (λ verified w2. install D spec w2)))
  unfolding and_then
  downloaded-WasChecked spec w (failed x, w1) e = tt
  downloaded-WasChecked spec w (fine got, w1) e =
      checked_of spec w w1 _ e (verify-IsVerified spec spec.sha256 w1 refl)

  module _ (K : KeepsMarker D) where
    marked_then :
        (spec : RootfsSpec) (w : W) (r : Ran Unit × W)
        → D.write_marker (marker_for spec) w ≡ r
        → IsInstalled spec (and_then D (on_disk D spec.dest r) (λ marked w'. finished D spec w'))
    unfolding and_then is_ready is_ready_marker
    marked_then spec w (err e, w') said = tt
    marked_then spec w (ok done, w') said =
        let kept = K.progress Progress.ready (D.remove_archive w').1 ∙ K.remove_archive w' in
        let there = kept ∙ K.write_marker (marker_for spec) w w' said in
        (refl, rw there (==_refl (marker_for spec)))

    install-IsInstalled : (spec : RootfsSpec) (w : W) → IsInstalled spec (install D spec w)
    unfolding install
    install-IsInstalled spec w = and_then-IsInstalled spec _ _ (λ entries w1.
        and_then-IsInstalled spec _ _
          (λ made w2. and_then-IsInstalled spec _ _ (λ renamed w3. marked_then spec w3 _ refl)))

    progress-ready :
        (spec : RootfsSpec) (w : W)
        → is_ready D spec w ≡ true
        → is_ready D spec (D.progress Progress.already_ready w) ≡ true
    unfolding is_ready
    progress-ready spec w h = ap (is_ready_marker spec) (K.progress Progress.already_ready w) ∙ h

    -- Where the progress and the removal of the archive leave the marker alone and a marker that
    -- was written is there, an installation without an error gives the destination, which is ready
    -- then; and where it was not ready before, the download went through, and where a checksum is
    -- given, the digest that was taken of the archive right behind that download is the checksum,
    -- without case, and what was answered is what the installation gives right behind that digest.
    pub ensure-IsInstalled :
        (spec : RootfsSpec) (w : W)
        → IsInstalled spec (ensure D spec w)
          × ((is_ready D spec w ≡ true) ⊎ WasChecked spec w (ensure D spec w))
    unfolding ensure
    ensure-IsInstalled spec w = elim (Bool-cases (is_ready D spec w)) [
      | inl ready ↦ rw ready ((refl, progress-ready spec w ready), inl refl)
      | inr missing ↦ rw missing (
        and_then-IsInstalled spec _ _
            (λ got w1. and_then-IsInstalled spec _ _ (λ verified w2. install-IsInstalled spec w2)),
        inr (downloaded-WasChecked spec w _ refl),
      )
    ]
