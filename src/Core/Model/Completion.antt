-- ===== src/Core/Model/Completion.antt =====
-- pkg/core/model/model.go: what a finished scan does to an image that is not yet with the hub.
use perceptor.Prelude.{
  ℕ, ◌≡◌, ◌≢◌, ◌⊎◌, inl, inr, refl, ap, ◌∙◌, true, false, none, some, some-ne-none, arith, Returns,
  Returns-weaken, string_eq,
}
use text.Mathlib.TextEquality.{eq_iff}
use perceptor.Prelude.Maps
use perceptor.Hub.DataTypes.{ScanResults, ScanSummaryStatus, scan_summary_status}
use perceptor.Core.Model.ScanStatus.{
  ScanStatus, in_queue, running_scan_client, running_hub_scan, unknown, complete,
  is_legal_transition,
}
use perceptor.Core.Model.Image.{DockerImageSha, ImageInfo, set_scan_status}
use perceptor.Core.Model.State.{Model, put_image, set_image_scan_status}
use perceptor.Core.Model.Handlers.{scan_did_finish, scan_succeeded}
use perceptor.Core.Model.Invariant.{IsConsistent, put_image-IsConsistent}
use perceptor.Core.Model.Transition.{Transitioned, set_image_scan_status_correct}

-- Only an image that is complete already is left alone.
scan_succeeded-ends :
    (now : ℕ) (sha : DockerImageSha) (s : ScanStatus) (m : Model)
    → s ≢ complete
    → scan_succeeded now sha s m ≡ set_image_scan_status now sha complete m
unfolding scan_succeeded
scan_succeeded-ends now sha unknown m n = refl
scan_succeeded-ends now sha in_queue m n = refl
scan_succeeded-ends now sha running_scan_client m n = refl
scan_succeeded-ends now sha running_hub_scan m n = refl
scan_succeeded-ends now sha complete m n = absurd (n refl)

module _ {m : Model} (now : ℕ) (sha : DockerImageSha) (info : ImageInfo) (results : ScanResults)
    (c : IsConsistent m) (e : Maps.lookup sha m.images ≡ some info) where
  -- The entry with the results of the scan.
  abbrev scanned : ImageInfo
  scanned = record info { scan_results = some results }

  lookup_scanned : Maps.lookup sha (put_image sha scanned m).images ≡ some scanned
  lookup_scanned = ground (arith, Maps.lookup-insert sha sha scanned m.images, eq_iff sha sha)

  scanned-IsConsistent : IsConsistent (put_image sha scanned m)
  scanned-IsConsistent = put_image-IsConsistent c sha info scanned e refl (record {
    keyed = (c.sound sha info e).keyed;
    tagged = (c.sound sha info e).tagged;
    scanned = λ p. some-ne-none results;
  })

  completes :
      Returns
        (Transitioned now (put_image sha scanned m) sha scanned complete)
        (set_image_scan_status now sha complete (put_image sha scanned m))
  completes =
      set_image_scan_status_correct now sha scanned complete scanned-IsConsistent lookup_scanned

  -- The successful results of an image that waits or is with the scan client: they are stored, but
  -- there is an error, and the image does not become complete.
  pub early_success-refused :
      (info.scan_status ≡ in_queue) ⊎ (info.scan_status ≡ running_scan_client)
      → scan_summary_status results ≡ ScanSummaryStatus.success
      → Returns
          (λ r.
            (r.1 ≢ none)
            × (Maps.lookup sha r.0.images ≡ some (record info { scan_results = some results })))
          (scan_did_finish now sha (some results) m)
  unfolding scan_did_finish is_legal_transition
  early_success-refused early s =
      rw
        (
          e,
          scan_did_finish,
          s,
          scan_succeeded-ends now sha info.scan_status (put_image sha scanned m)
              (λ p. ground (arith, early, p)),
        )
        (refused (elim early [ inl q ↦ rw q refl | inr q ↦ rw q refl ]))
    where
      refused :
          is_legal_transition info.scan_status complete ≡ false
          → Returns
              (λ r.
                (r.1 ≢ none)
                × (Maps.lookup sha r.0.images ≡ some (record info { scan_results = some results })))
              (set_image_scan_status now sha complete (put_image sha scanned m))
      refused l = Returns-weaken completes λ r t.
          let (err, images, _) = t.refused l in (err, ap (Maps.lookup sha) images ∙ lookup_scanned)

  -- The successful results of an image that is unknown or with the hub complete it.
  pub success-complete :
      (info.scan_status ≡ unknown) ⊎ (info.scan_status ≡ running_hub_scan)
      → scan_summary_status results ≡ ScanSummaryStatus.success
      → Returns
          (λ r.
            (r.1 ≡ none)
            × (Maps.lookup sha r.0.images
                ≡ some
                    (set_scan_status now complete (record info { scan_results = some results }))))
          (scan_did_finish now sha (some results) m)
  unfolding scan_did_finish is_legal_transition
  success-complete ready s =
      rw
        (
          e,
          scan_did_finish,
          s,
          scan_succeeded-ends now sha info.scan_status (put_image sha scanned m)
              (λ p. ground (arith, ready, p)),
        )
        (done (elim ready [ inl q ↦ rw q refl | inr q ↦ rw q refl ]))
    where
      lookup_complete :
          Maps.lookup sha (
            Maps.insert sha (set_scan_status now complete scanned) (put_image sha scanned m).images)
          ≡ some (set_scan_status now complete scanned)
      lookup_complete = ground (
        arith,
        Maps.lookup-insert sha sha (set_scan_status now complete scanned)
            (put_image sha scanned m).images,
        eq_iff sha sha,
      )

      done :
          is_legal_transition info.scan_status complete ≡ true
          → Returns
              (λ r.
                (r.1 ≡ none)
                × (Maps.lookup sha r.0.images ≡ some (set_scan_status now complete scanned)))
              (set_image_scan_status now sha complete (put_image sha scanned m))
      done l = Returns-weaken completes λ r t.
          let (err, images, _) = t.moved l in (err, ap (Maps.lookup sha) images ∙ lookup_complete)
