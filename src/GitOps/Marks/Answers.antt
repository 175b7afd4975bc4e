-- ===== src/GitOps/Marks/Answers.antt =====
-- A marking call on a server that accepts every patch of the object.
use lightsout.Base.{◌≡◌, false, ok}
use lightsout.Json.{Json}
use lightsout.Kube.Patch.{ObjectPatch, build}
use lightsout.Kube.Client.{Endpoint, apply_merge_patch}
use lightsout.GitOps.Marks.{patched}

-- The server accepts whatever patch of the object it is sent.
abbrev pub Accepts : {S Obj : Type 0} → Endpoint S Obj → Obj → S → Type 0
Accepts {S} {Obj} e o s = (p : Json) → (o' : Obj) × (s' : S) × (e.patch o p s ≡ (ok o', s'))

module _ {S Obj : Type 0} (e : Endpoint S Obj) (o : Obj) (s : S) (accepts : Accepts e o s) where
  -- The object that the server answers a patch with.
  unfoldable pub after_patch : ObjectPatch → Obj
  after_patch p = (accepts (build p)).0

  pub object-patched :
      (p : ObjectPatch) → (patched o (apply_merge_patch e o p s)).object ≡ after_patch p
  unfolding after_patch apply_merge_patch
  object-patched p = rw ((accepts (build p)).2)

  pub skipped-patched :
      (p : ObjectPatch) → (patched o (apply_merge_patch e o p s)).skipped ≡ ok false
  unfolding apply_merge_patch
  skipped-patched p = rw ((accepts (build p)).2)
