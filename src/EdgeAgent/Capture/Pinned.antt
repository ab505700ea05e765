-- ===== src/EdgeAgent/Capture/Pinned.antt =====
-- Which device a label opens.
use cricket_drs_system.Prelude.{
  ℕ, String, ◌≡◌, ◌≢◌, refl, ◌⊎◌, inl, inr, Bool, true, false, List, [], ◌∷◌, ◌++◌, All, arith,
  string_eq, eq_iff, Bool-cases, ap,
}
use cricket_drs_system.Exec.{ok, err}
use cricket_drs_system.EdgeAgent.Capture.{DeviceInfo, resolve_device_id, first_labelled}
use cricket_drs_system.EdgeAgent.Capture.Devices.{
  Media, no_device, pinned, first_track, list_devices, open_resolved, open_camera,
}

module _ (contains : String → String → Bool) (label : String) where
  -- The first device, in the order of the list, whose label contains the text, or that none does.
  abbrev pub FirstMatch : List DeviceInfo → DeviceInfo → Type 0
  FirstMatch devices d =
      (before : List DeviceInfo) × (after : List DeviceInfo) × ((devices ≡ before ++ (d ∷ after))
        × All (λ e. contains e.label label ≡ false) before
        × (contains d.label label ≡ true))

  first_labelled-cases :
      (devices : List DeviceInfo)
      → ((d : DeviceInfo) × FirstMatch devices d
          × (first_labelled contains label devices ≡ ok d.device_id))
        ⊎ (All (λ e. contains e.label label ≡ false) devices
            × (first_labelled contains label devices ≡ err label))
  unfolding first_labelled
  first_labelled-cases [] = inr (tt, refl)
  first_labelled-cases (d ∷ ds) = elim (Bool-cases (contains d.label label)) [
    | inl here ↦ inl (d, ([], ds, (refl, tt, here)), rw here refl)
    | inr other ↦ elim (first_labelled-cases ds) [
      | inl (e, (before, after, (parts, none_before, found)), first) ↦ inl (
        e,
        (d ∷ before, after, (ap (λ xs. d ∷ xs) parts, (other, none_before), found)),
        rw other first,
      )
      | inr (none_match, failed) ↦ inr ((other, none_match), rw other failed)
    ]
  ]

module _ {Track World : Type 0} (media : Media Track World) where
  -- With a label that is not empty, the camera is opened by the identifier of the first video
  -- device, in the listing made by this very call, whose label contains it, and is what the
  -- library gives for that identifier; where no label does, the call fails and asks the library
  -- for no camera.
  pub open_camera-pinned :
      (contains : String → String → Bool) (width height frame_rate : ℕ) (label : String) (w : World)
      → label ≢ ""
      → let (devices, w') = list_devices media w in
        let r = open_camera media contains width height frame_rate label w in
        ((d : DeviceInfo) × FirstMatch contains label devices d
          × (r ≡ (
              let (stream, w2) =
                media.get_video
                  (record {
                    width = width;
                    height = height;
                    frame_rate = frame_rate;
                    device_id = pinned d.device_id;
                  })
                  w' in
              (first_track stream, w2))))
        ⊎ (All (λ e. contains e.label label ≡ false) devices × (r ≡ (err (no_device label), w')))
  unfolding open_camera resolve_device_id open_resolved
  open_camera-pinned contains width height frame_rate label w labelled =
      elim (first_labelled-cases contains label (list_devices media w).0) [
        | inl (d, first, found) ↦ inl (d, first, ground (arith, eq_iff label ""))
        | inr (none_match, failed) ↦ inr (none_match, ground (arith, eq_iff label ""))
      ]
