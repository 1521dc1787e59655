-- ===== src/Firmware/Transfer.antt =====
-- What a whole sequence of events of the firmware server does to a charger in
-- givEVC-ocppv2/app/ocpp/coordinator.py whose firmware is downloaded: what a repeated transfer may not
-- change.
use giv_evc_ocppv.Base.{
  ℕ, Bool, true, false, ◌||◌, ◌&&◌, not, Option, List, [], ◌∷◌, ◌≡◌, refl, ◌∙◌, All, Bool-cases,
  inl, inr, ◌⊎◌, Text,
}
use giv_evc_ocppv.Firmware.Names.{
  Kind, is_retry, is_terminal_error, connect, request_received, control_frame_sent,
  control_frame_received, chunk_sent, checksum_ok, checksum_missing, checksum_mismatch, file_sent,
  file_not_found, chunk_read_error, client_error, socket_timeout, disconnect, download_started,
  overlapping_request, transfer_cancelled, unlisted,
}
use giv_evc_ocppv.Firmware.State.{
  Phase, idle, requested, downloading, downloaded, installing, installed, failed, cancelled,
  Charger, is_final, is_applying, mark_installing_after_disconnect,
}
use giv_evc_ocppv.Firmware.Events.{
  Event, Surroundings, record_firmware_transfer_event, handle, advance, note_event, event_kind,
  is_cancellation, is_disconnect, name_of, filename_of,
}

-- The events in their order, each with the clock and the rounding it meets.
abbrev pub replay : List (Surroundings × Event) → Charger → Charger
replay [] c = c
replay ((env, e) ∷ rest) c = replay rest (record_firmware_transfer_event env e c)

-- An event that ends an update whose firmware is downloaded: a cancellation, or an error that is no
-- event of a repeated transfer.
abbrev pub ends_update : Kind → Bool
ends_update kind = is_cancellation kind || (is_terminal_error kind && not (is_retry kind))

-- What the other events keep of such an update.
pub record Kept (c d : Charger) : Type 0 where
  pub kept_applying : is_applying d.update.phase ≡ true
  pub kept_installing : c.update.phase ≡ installing → d.update.phase ≡ installing
  pub kept_target : d.update.target_file ≡ c.update.target_file
  pub kept_version : d.update.target_version ≡ c.update.target_version
  pub kept_completion : d.update.download_completed_at ≡ c.update.download_completed_at
  pub kept_reason : d.update.failure_reason ≡ c.update.failure_reason
  pub kept_chunks : d.update.progress.chunks_sent ≡ c.update.progress.chunks_sent
  pub kept_bytes : d.update.progress.bytes_sent ≡ c.update.progress.bytes_sent
  pub kept_active :
      d.update.progress.active ≡ true ⊎ (d.update.progress.active ≡ c.update.progress.active)
  pub kept_stored : d.stored ≡ c.stored

Kept-self : (c : Charger) → is_applying c.update.phase ≡ true → Kept c c
Kept-self c h = record {
  kept_applying = h;
  kept_installing = λ p. p;
  kept_target = refl;
  kept_version = refl;
  kept_completion = refl;
  kept_reason = refl;
  kept_chunks = refl;
  kept_bytes = refl;
  kept_active = inr refl;
  kept_stored = refl;
}

Kept-trans : {b c d : Charger} → Kept b c → Kept c d → Kept b d
Kept-trans h k = record {
  kept_applying = k.kept_applying;
  kept_installing = λ p. k.kept_installing (h.kept_installing p);
  kept_target = k.kept_target ∙ h.kept_target;
  kept_version = k.kept_version ∙ h.kept_version;
  kept_completion = k.kept_completion ∙ h.kept_completion;
  kept_reason = k.kept_reason ∙ h.kept_reason;
  kept_chunks = k.kept_chunks ∙ h.kept_chunks;
  kept_bytes = k.kept_bytes ∙ h.kept_bytes;
  kept_active = elim k.kept_active [
    | inl active ↦ inl active
    | inr same ↦ elim h.kept_active [
      | inl active ↦ inl (same ∙ active)
      | inr before ↦ inr (same ∙ before)
    ]
  ];
  kept_stored = k.kept_stored ∙ h.kept_stored;
}

retry-not_cancellation : (kind : Kind) → is_retry kind ≡ true → is_cancellation kind ≡ false
retry-not_cancellation transfer_cancelled h = cc
retry-not_cancellation _ h = refl

not_final : (phase : Phase) → is_applying phase ≡ true → is_final phase ≡ false
not_final downloaded h = refl
not_final installing h = refl
not_final idle h = cc
not_final requested h = cc
not_final downloading h = cc
not_final installed h = cc
not_final failed h = cc
not_final cancelled h = cc

harmless-cases :
    (kind : Kind) → ends_update kind ≡ false → (is_retry kind ≡ true) ⊎ (kind ≡ unlisted)
harmless-cases connect h = inl refl
harmless-cases request_received h = inl refl
harmless-cases control_frame_sent h = inl refl
harmless-cases control_frame_received h = inl refl
harmless-cases chunk_sent h = inl refl
harmless-cases checksum_ok h = inl refl
harmless-cases checksum_missing h = inl refl
harmless-cases checksum_mismatch h = cc
harmless-cases file_sent h = inl refl
harmless-cases file_not_found h = cc
harmless-cases chunk_read_error h = cc
harmless-cases client_error h = cc
harmless-cases socket_timeout h = inl refl
harmless-cases disconnect h = inl refl
harmless-cases download_started h = inl refl
harmless-cases overlapping_request h = inl refl
harmless-cases transfer_cancelled h = cc
harmless-cases unlisted h = inr refl

closing-Kept :
    (now : ℕ) (c : Charger)
    → is_applying c.update.phase ≡ true
    → Kept c (record c { update = mark_installing_after_disconnect now c.update })
unfolding mark_installing_after_disconnect
closing-Kept now c h = rw h (record {
  kept_applying = refl;
  kept_installing = λ p. refl;
  kept_target = refl;
  kept_version = refl;
  kept_completion = refl;
  kept_reason = refl;
  kept_chunks = refl;
  kept_bytes = refl;
  kept_active = inl refl;
  kept_stored = refl;
})

noted-Kept :
    (now : ℕ) (name : Text) (filename : Option Text) (c : Charger)
    → is_applying c.update.phase ≡ true
    → Kept c (record c { update = note_event now name filename c.update })
unfolding note_event
noted-Kept now name filename c h = record {
  kept_applying = h;
  kept_installing = λ p. p;
  kept_target = refl;
  kept_version = refl;
  kept_completion = refl;
  kept_reason = refl;
  kept_chunks = refl;
  kept_bytes = refl;
  kept_active = inr refl;
  kept_stored = refl;
}

-- One of the other events.
event-Kept :
    (env : Surroundings) (e : Event) (c : Charger)
    → is_applying c.update.phase ≡ true
    → ends_update (event_kind e) ≡ false
    → Kept c (record_firmware_transfer_event env e c)
unfolding record_firmware_transfer_event handle advance note_event
event-Kept env e c h harmless =
    let going = not_final c.update.phase h in
    elim (harmless-cases (event_kind e) harmless) [
      | inl retry ↦
          rw (going, h, retry)
            (elim (Bool-cases (is_disconnect (event_kind e))) [
              | inl closing ↦ rw closing (closing-Kept env.now c h)
              | inr noted ↦ rw noted (Kept-self c h)
            ])
      | inr other ↦ rw (other, going, h) (noted-Kept env.now (name_of e) (filename_of e) c h)
    ]

-- Once the firmware is downloaded, no sequence of events of the firmware server without a cancellation
-- and without an error other than `socket_timeout` takes the update back, changes its target, gives
-- it a reason of failure, counts chunks or bytes again, makes its progress inactive or stores
-- anything; an installation under way stays one.
pub replay-applying-Kept :
    (events : List (Surroundings × Event)) (c : Charger)
    → is_applying c.update.phase ≡ true
    → All (λ e. ends_update (event_kind e.1) ≡ false) events
    → Kept c (replay events c)
replay-applying-Kept [] c h others = Kept-self c h
replay-applying-Kept ((env, e) ∷ rest) c h others =
    let first = event-Kept env e c h others.0 in
    Kept-trans first (replay-applying-Kept rest _ first.kept_applying others.1)
