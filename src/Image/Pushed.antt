-- ===== src/Image/Pushed.antt =====
-- Where the digest of a pushed image comes from, in gcp/image.go.
use cli_plugin_gcp.Common.{
  ℕ, zero, suc, ◌≡◌, List, [], ◌∷◌, String, Option, none, some, arith, refl, ap, sym, ◌∙◌, inl, inr,
  Option-cases,
}
use cli_plugin_gcp.Common.Action.{Action, ok, >>=-eq-ok, ◌>>◌}
use cli_plugin_gcp.Common.Texts.{split_second}
use cli_plugin_gcp.Image.{
  Image, ImageService, push, push_loop, prepared, attempt, digested, enough, pushed_name,
}

module _ (s : ImageService) where
  open s use {World}

  -- an inspection of the image has found these digests
  abbrev IsInspected : String → List String → Type 0
  IsInspected image ds = (v : World) × ((s.image_inspect image v).0 ≡ ok ds)

  enough-seen :
      (image : String) (rest : Action World (List String)) (found : List String) (v : World)
      (d : String) (ds : List String)
      → IsInspected image found
      → ((u : World) → (rest u).0 ≡ ok (d ∷ ds) → IsInspected image (d ∷ ds))
      → (enough s rest found v).0 ≡ ok (d ∷ ds)
      → IsInspected image (d ∷ ds)
  enough-seen image rest [] v d ds seen later e =
      let (u, slept, same) = >>=-eq-ok (λ _. rest) s.sleep v (d ∷ ds) e in
      later (s.sleep v).1 (ap (λ out. out.0) (sym same) ∙ e)
  enough-seen image rest (x ∷ xs) v d ds (u, seen) later e = (u, seen ∙ e)

  push_loop-seen :
      (n : ℕ) (image auth : String) (w : World) (d : String) (ds : List String)
      → (push_loop s n image auth w).0 ≡ ok (d ∷ ds)
      → IsInspected image (d ∷ ds)
  unfolding push_loop
  push_loop-seen zero image auth w d ds e = absurd (ground arith)
  push_loop-seen (suc n) image auth w d ds e =
      let before = s.image_push image auth >> s.drain >> s.close in
      let inspect = before >> s.image_inspect image in
      let rest = push_loop s n image auth in
      let (found, inspected, same) = >>=-eq-ok (enough s rest) inspect w (d ∷ ds) e in
      let (u, ready, same') = >>=-eq-ok (λ _. s.image_inspect image) before w found inspected in
      enough-seen image rest found (inspect w).1 d ds
        ((before w).1, ap (λ out. out.0) (sym same') ∙ inspected)
        (λ v at. push_loop-seen n image auth v d ds at) (ap (λ out. out.0) (sym same) ∙ e)

  digested-eq :
      (o : Image) (ds : List String) (v : World) (o' : Image)
      → (digested s o ds v).0 ≡ ok (some o')
      → (d : String) × (rest : List String) × (digest : String) × (ds ≡ d ∷ rest)
        × (split_second "@" d ≡ some digest)
        × (o' ≡ record o { digest = some digest })
  digested-eq o [] v o' e = absurd (ground arith)
  digested-eq o (d ∷ ds) v o' e = elim (Option-cases (split_second "@" d)) [
    | inl missing ↦ absurd (ground arith)
    | inr (x, found) ↦ (d, ds, x, refl, found, ground (arith, found, e))
  ]

  attempt-seen :
      (o : Image) (auth : String) (ready : Option (Unit {0})) (v : World) (o' : Image)
      → (attempt s o (auth, ready) v).0 ≡ ok (some o')
      → (w : World) × (d : String) × (ds : List String) × (digest : String) × ((s.image_inspect
            (pushed_name s o)
            w).0
          ≡ ok (d ∷ ds))
        × (split_second "@" d ≡ some digest)
        × (o' ≡ record o { digest = some digest })
  attempt-seen o auth none v o' e = absurd (ground arith)
  attempt-seen o auth (some u) v o' e =
      let loop = push_loop s 3 (pushed_name s o) auth in
      let (found, looped, same) = >>=-eq-ok (digested s o) loop v (some o') e in
      let (d, ds, digest, split, at, done) =
        digested-eq o found (loop v).1 o' (ap (λ out. out.0) (sym same) ∙ e) in
      let (w, seen) = push_loop-seen 3 (pushed_name s o) auth v d ds (looped ∙ ap ok split) in
      (w, d, ds, digest, seen, at, done)

  -- When the push of an image succeeds, then an inspection of the image under its name has found a
  -- digest, and the digest that the resource has from then on is the part of it behind the "@".
  pub push-seen :
      (fuel : ℕ) (o : Image) (w : World) (o' : Image)
      → (push s fuel o w).0 ≡ ok (some o')
      → (v : World) × (d : String) × (ds : List String) × (digest : String) × ((s.image_inspect
            (pushed_name s o)
            v).0
          ≡ ok (d ∷ ds))
        × (split_second "@" d ≡ some digest)
        × (o' ≡ record o { digest = some digest })
  unfolding push
  push-seen fuel o w o' e =
      let ((auth, ready), prep, same) = >>=-eq-ok (attempt s o) (prepared s fuel o) w (some o') e in
      attempt-seen o auth ready (prepared s fuel o w).1 o' (ap (λ out. out.0) (sym same) ∙ e)
