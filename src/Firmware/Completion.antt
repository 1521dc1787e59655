-- ===== src/Firmware/Completion.antt =====
-- From the announcement of a transfer to the restart: the events that
-- givEVC-ocppv2/app/ocpp/firmware_server.py emits for a connection, in their order, and what
-- `record_firmware_transfer_event` of givEVC-ocppv2/app/ocpp/coordinator.py makes of them.
use giv_evc_ocppv.Base.{
  ℕ, ◌+◌, Bool, true, false, ◌||◌, Option, some, List, [], ◌∷◌, ◌++◌, ◌≡◌, refl, ◌∙◌, sym, ap,
  arith, All, Text, Bool-cases, Option-cases, inl, inr, ◌⊎◌,
}
use giv_evc_ocppv.Firmware.Names.{
  Kind, connect, request_received, control_frame_sent, control_frame_received, chunk_sent,
  checksum_ok, checksum_missing, checksum_mismatch, file_sent, file_not_found, chunk_read_error,
  client_error, socket_timeout, disconnect, download_started, overlapping_request,
  transfer_cancelled, unlisted,
}
use giv_evc_ocppv.Firmware.State.{
  installing, Update, Charger, is_final, is_applying, installing_timeout, moment_or,
  mark_installing_after_disconnect, mark_download_complete,
}
use giv_evc_ocppv.Firmware.Events.{
  Event, Surroundings, record_firmware_transfer_event, handle, advance, event_kind, name_of,
  filename_of, chunk_goes_out, chunk_acknowledged, metadata_sent, note_event, download_begins,
  is_nonzero,
}
use mathlib.Core.Path.{subst}
use giv_evc_ocppv.Firmware.Transfer.{replay}

-- The update has ended, or come so far that the charger applies the firmware.
abbrev pub is_settled : Update → Bool
is_settled u = is_final u.phase || is_applying u.phase

-- An event that meets an unsettled update runs its branch, and stores nothing if that is not final.
unsettled-advances :
    (env : Surroundings) (e : Event) (kind : Kind) (c : Charger)
    → is_settled c.update ≡ false
    → event_kind e ≡ kind
    → is_final (advance env (name_of e) (filename_of e) e kind c.update).phase ≡ false
    → record_firmware_transfer_event env e c
      ≡ record c { update = advance env (name_of e) (filename_of e) e kind c.update }
unfolding record_firmware_transfer_event handle
unsettled-advances env e kind c unsettled is_kind going =
    let not_final : is_final c.update.phase ≡ false = ground arith in
    let not_applying : is_applying c.update.phase ≡ false = ground arith in
    rw (is_kind, not_final, not_applying, going) refl

-- What the server emits between the announcement and the end of a transfer: control frames, chunks, and
-- the notes of frames that it does not take.
abbrev pub in_transfer : Kind → Bool
in_transfer control_frame_sent = true
in_transfer control_frame_received = true
in_transfer chunk_sent = true
in_transfer unlisted = true
in_transfer _ = false

abbrev bytes_of : Kind → Event → ℕ
bytes_of chunk_sent e = e.bytes
bytes_of _ e = 0

-- The bytes of the chunks among some events.
unfoldable pub total_bytes : List (Surroundings × Event) → ℕ
total_bytes [] = 0
total_bytes ((env, e) ∷ rest) = bytes_of (event_kind e) e + total_bytes rest

-- A branch that adds some bytes and touches nothing of the update's own course.
record Carries (added : ℕ) (u v : Update) : Type 0 where
  same_phase : v.phase ≡ u.phase
  same_completion : v.download_completed_at ≡ u.download_completed_at
  same_reason : v.failure_reason ≡ u.failure_reason
  more_bytes : v.progress.bytes_sent ≡ u.progress.bytes_sent + added

Carries-none : (u : Update) → Carries 0 u u
Carries-none u = record {
  same_phase = refl;
  same_completion = refl;
  same_reason = refl;
  more_bytes = omega arith;
}

metadata_sent-Carries :
    (now : ℕ) (name : Text) (e : Event) (u : Update) → Carries 0 u (metadata_sent now name e u)
unfolding metadata_sent
metadata_sent-Carries now name e u =
    elim (Bool-cases (is_nonzero e.payload.frame_packnum || is_nonzero e.payload.frame_filesize)) [
      | inl given ↦ rw given (record {
        same_phase = refl;
        same_completion = refl;
        same_reason = refl;
        more_bytes = omega arith;
      })
      | inr empty ↦ rw empty (Carries-none u)
    ]

chunk_acknowledged-Carries :
    (env : Surroundings) (name : Text) (e : Event) (u : Update)
    → Carries 0 u (chunk_acknowledged env name e u)
unfolding chunk_acknowledged
chunk_acknowledged-Carries env name e u = elim (Option-cases e.payload.frame_packsn) [
  | inl absent ↦ rw absent (Carries-none u)
  | inr (packsn, present) ↦ rw present (record {
    same_phase = refl;
    same_completion = refl;
    same_reason = refl;
    more_bytes = omega arith;
  })
]

advance-Carries :
    (env : Surroundings) (name : Text) (filename : Option Text) (e : Event) (kind : Kind)
    (u : Update)
    → in_transfer kind ≡ true
    → Carries (bytes_of kind e) u (advance env name filename e kind u)
unfolding advance chunk_goes_out note_event
advance-Carries env name filename e control_frame_sent u h = metadata_sent-Carries env.now name e u
advance-Carries env name filename e control_frame_received u h =
    chunk_acknowledged-Carries env name e u
advance-Carries env name filename e chunk_sent u h = record {
  same_phase = refl;
  same_completion = refl;
  same_reason = refl;
  more_bytes = refl;
}
advance-Carries env name filename e unlisted u h = record {
  same_phase = refl;
  same_completion = refl;
  same_reason = refl;
  more_bytes = omega arith;
}
advance-Carries env name filename e connect u h = cc
advance-Carries env name filename e request_received u h = cc
advance-Carries env name filename e checksum_ok u h = cc
advance-Carries env name filename e checksum_missing u h = cc
advance-Carries env name filename e checksum_mismatch u h = cc
advance-Carries env name filename e file_sent u h = cc
advance-Carries env name filename e file_not_found u h = cc
advance-Carries env name filename e chunk_read_error u h = cc
advance-Carries env name filename e client_error u h = cc
advance-Carries env name filename e socket_timeout u h = cc
advance-Carries env name filename e disconnect u h = cc
advance-Carries env name filename e download_started u h = cc
advance-Carries env name filename e overlapping_request u h = cc
advance-Carries env name filename e transfer_cancelled u h = cc

-- A charger after some events of a transfer.
record Carried (added : ℕ) (c d : Charger) : Type 0 where
  carried : Carries added c.update d.update
  same_stored : d.stored ≡ c.stored

phase-unsettled : (u v : Update) → v.phase ≡ u.phase → is_settled v ≡ is_settled u
phase-unsettled u v same = rw same refl

replay-Carried :
    (events : List (Surroundings × Event)) (c : Charger)
    → is_settled c.update ≡ false
    → All (λ e. in_transfer (event_kind e.1) ≡ true) events
    → Carried (total_bytes events) c (replay events c)
unfolding total_bytes
replay-Carried [] c h inside = record { carried = Carries-none c.update; same_stored = refl }
replay-Carried ((env, e) ∷ rest) c h inside =
    let u = advance env (name_of e) (filename_of e) e (event_kind e) c.update in
    let first : Carries (bytes_of (event_kind e) e) c.update u =
      advance-Carries env (name_of e) (filename_of e) e (event_kind e) c.update inside.0 in
    let open_still : is_settled u ≡ false = phase-unsettled c.update u first.same_phase ∙ h in
    let going : is_final u.phase ≡ false = ground arith in
    let later = replay-Carried rest (record c { update = u }) open_still inside.1 in
    rw (unsettled-advances env e (event_kind e) c h refl going) (record {
      carried = record {
        same_phase = later.carried.same_phase ∙ first.same_phase;
        same_completion = later.carried.same_completion ∙ first.same_completion;
        same_reason = later.carried.same_reason ∙ first.same_reason;
        more_bytes = omega (arith, later.carried.more_bytes, first.more_bytes);
      };
      same_stored = later.same_stored;
    })

replay-append :
    (events more : List (Surroundings × Event)) (c : Charger)
    → replay (events ++ more) c ≡ replay more (replay events c)
replay-append [] more c = refl
replay-append ((env, e) ∷ rest) more c =
    replay-append rest more (record_firmware_transfer_event env e c)

-- The event of the checksum, which ends a transfer in which nothing went wrong.
verdict-downloaded :
    (env : Surroundings) (e : Event) (c : Charger)
    → is_settled c.update ≡ false
    → (event_kind e ≡ checksum_ok) ⊎ (event_kind e ≡ checksum_missing)
    → (filename : Option Text) × (record_firmware_transfer_event env e c
        ≡ record c { update = mark_download_complete env.now filename c.update })
unfolding advance mark_download_complete
verdict-downloaded env e c h (inl right) = (_, unsettled-advances env e checksum_ok c h right refl)
verdict-downloaded env e c h (inr missing) =
    (_, unsettled-advances env e checksum_missing c h missing refl)

-- The end of the file, and that of the connection, for a charger that has the firmware.
sent-ignored :
    (env : Surroundings) (sent : Event) (c : Charger)
    → is_final c.update.phase ≡ false
    → is_applying c.update.phase ≡ true
    → event_kind sent ≡ file_sent
    → record_firmware_transfer_event env sent c ≡ c
unfolding record_firmware_transfer_event handle
sent-ignored env sent c going applying sends = rw (sends, going, applying) refl

closed-installing :
    (env : Surroundings) (last : Event) (c : Charger)
    → is_final c.update.phase ≡ false
    → is_applying c.update.phase ≡ true
    → event_kind last ≡ disconnect
    → record_firmware_transfer_event env last c
      ≡ record c { update = mark_installing_after_disconnect env.now c.update }
unfolding record_firmware_transfer_event handle
closed-installing env last c going applying ends = rw (ends, going, applying) refl

ending-installing :
    (env_sent env_end : Surroundings) (sent last : Event) (c : Charger)
    → is_final c.update.phase ≡ false
    → is_applying c.update.phase ≡ true
    → event_kind sent ≡ file_sent
    → event_kind last ≡ disconnect
    → replay ((env_sent, sent) ∷ (env_end, last) ∷ []) c
      ≡ record c { update = mark_installing_after_disconnect env_end.now c.update }
ending-installing env_sent env_end sent last c going applying sends ends =
    ap (record_firmware_transfer_event env_end last)
      (sent-ignored env_sent sent c going applying sends)
    ∙ closed-installing env_end last c going applying ends

-- What a transfer has come to.
pub record Completed (closed_at completed_at : ℕ) (bytes : ℕ) (c d : Charger) : Type 0 where
  pub now_installing : d.update.phase ≡ installing
  pub deadline : d.update.expected_reconnect_by ≡ some (closed_at + installing_timeout)
  pub completion :
      d.update.download_completed_at ≡ moment_or c.update.download_completed_at completed_at
  pub all_bytes : d.update.progress.bytes_sent ≡ bytes
  pub no_failure : d.update.failure_reason ≡ c.update.failure_reason
  pub not_stored : d.stored ≡ c.stored

closed-Completed :
    (env_verdict env_sent env_end : Surroundings) (verdict sent last : Event) (added : ℕ)
    (b c : Charger)
    → is_settled b.update ≡ false
    → b.update.progress.bytes_sent ≡ 0
    → Carried added b c
    → (event_kind verdict ≡ checksum_ok) ⊎ (event_kind verdict ≡ checksum_missing)
    → event_kind sent ≡ file_sent
    → event_kind last ≡ disconnect
    → Completed env_end.now env_verdict.now added b
        (replay ((env_verdict, verdict) ∷ (env_sent, sent) ∷ (env_end, last) ∷ []) c)
unfolding mark_download_complete mark_installing_after_disconnect
closed-Completed env_verdict env_sent env_end verdict sent last added b c h empty carried judged
      sends ends =
    let open_still = phase-unsettled b.update c.update carried.carried.same_phase ∙ h in
    let (filename, judgement) = verdict-downloaded env_verdict verdict c open_still judged in
    let held = record c { update = mark_download_complete env_verdict.now filename c.update } in
    rw (judgement, ending-installing env_sent env_end sent last held refl refl sends ends)
      (record {
        now_installing = refl;
        deadline = refl;
        completion = ap (λ o. moment_or o env_verdict.now) carried.carried.same_completion;
        all_bytes = omega (arith, carried.carried.more_bytes, empty);
        no_failure = carried.carried.same_reason;
        not_stored = carried.same_stored;
      })

-- A transfer as the firmware server reports it, from its announcement over control frames, chunks and
-- frames that are not taken to the event of a right or missing checksum, the end of the file and that
-- of the connection, leads an update that is unsettled to its installation: the charger has ten minutes
-- from the end of the connection to come back, the moment of the download is that of the checksum's
-- event where there was none before, the bytes of all chunks are counted, no reason of failure is
-- given, and nothing is stored. It does so whether or not every chunk has gone out.
pub transfer_completes :
    (env_start env_verdict env_sent env_end : Surroundings) (first verdict sent last : Event)
    (middle : List (Surroundings × Event)) (c : Charger)
    → is_settled c.update ≡ false
    → event_kind first ≡ download_started
    → All (λ e. in_transfer (event_kind e.1) ≡ true) middle
    → (event_kind verdict ≡ checksum_ok) ⊎ (event_kind verdict ≡ checksum_missing)
    → event_kind sent ≡ file_sent
    → event_kind last ≡ disconnect
    → Completed env_end.now env_verdict.now (total_bytes middle) c (
        replay
          ((env_start, first) ∷ middle
            ++ (env_verdict, verdict) ∷ (env_sent, sent) ∷ (env_end, last) ∷ [])
          c)
unfolding advance download_begins
transfer_completes env_start env_verdict env_sent env_end first verdict sent last middle c h starts
      inside judged sends ends =
    let begun = record c {
      update = download_begins env_start.now (name_of first) (filename_of first) first c.update;
    } in
    let not_final : is_final c.update.phase ≡ false = ground arith in
    let done =
      closed-Completed env_verdict env_sent env_end verdict sent last (total_bytes middle) begun
        (replay middle begun) h refl (replay-Carried middle begun h inside) judged sends ends in
    let closing : List (Surroundings × Event) =
      (env_verdict, verdict) ∷ (env_sent, sent) ∷ (env_end, last) ∷ [] in
    let whole : replay ((env_start, first) ∷ middle ++ closing) c
        ≡ replay closing (replay middle begun) =
      ap (replay (middle ++ closing))
        (unsettled-advances env_start first download_started c h starts not_final)
      ∙ replay-append middle closing begun in
    subst (λ d. Completed env_end.now env_verdict.now (total_bytes middle) c d) (sym whole)
      (record {
        now_installing = done.now_installing;
        deadline = done.deadline;
        completion = done.completion;
        all_bytes = done.all_bytes;
        no_failure = done.no_failure;
        not_stored = done.not_stored;
      })
