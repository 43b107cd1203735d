-- ===== src/Replay/Verify.antt =====
-- A golden file decides what the mode `verify` of the replayer answers, whatever the clock
-- (engine/tools/replay/replayer.cpp).
use real_time_paper_trading.Base.{
  ℕ, suc, subst, ap, sym, ◌∙◌, ◌≡◌, refl, inl, inr, Bool, true, false, Option, none, some, List, [],
  ◌∷◌, ◌++◌, Bool-cases, arith, Text, ◌⊎◌,
}
use real_time_paper_trading.Client.{Client, same_text}
use real_time_paper_trading.Parser.{Simdjson, parse_book_message}
use real_time_paper_trading.Session.{
  RecordedFrame, Reading, got, ended, bad_magic_or_version, truncated_header, truncated_payload,
  read_all_recorded_frames,
}
use real_time_paper_trading.Registry.{new_client}
use real_time_paper_trading.Registry.Keys.{same_text-IsTest}
use real_time_paper_trading.Replay.{
  Args, Outcome, exits, uncaught, replay_client, golden_line, compared, with_frames, load_frames,
  handle_raw, with_line, verify_frame, verify_frames, verified, run_verify,
}
use real_time_paper_trading.Client.Core.{Core, core, core_frame, core_of, core-handle_message}

module _ {Value : Type 0} (json : Simdjson Value) (crc32 : Text → ℕ) where
  -- A run on what decides the book.
  abbrev core_run : Option (Client × Text) → Option (Core × Text)
  core_run none = none
  core_run (some (c, actual)) = some (core c, actual)

  abbrev core_with_line : Text → Option Core → Option (Core × Text)
  core_with_line actual none = none
  core_with_line actual (some k) = some (k, actual ++ golden_line k.book)

  abbrev core_verify : Option (Core × Text) → RecordedFrame → Option (Core × Text)
  core_verify none frame = none
  core_verify (some (k, actual)) frame =
      core_with_line actual (core_frame crc32 (parse_book_message json frame.raw) k)

  abbrev core_verify_all : Option (Core × Text) → List RecordedFrame → Option (Core × Text)
  core_verify_all run [] = run
  core_verify_all run (frame ∷ frames) = core_verify_all (core_verify run frame) frames

  abbrev core_verified : Args → Option Text → Option (Core × Text) → Outcome
  core_verified args golden none = uncaught
  core_verified args golden (some (k, actual)) = compared args.update_golden actual golden

  core_run-verified :
      (args : Args) (golden : Option Text) (run : Option (Client × Text))
      → verified args golden run ≡ core_verified args golden (core_run run)
  unfolding verified
  core_run-verified args golden none = refl
  core_run-verified args golden (some (c, actual)) = refl

  module _ (checked now : ℕ → ℕ) where
    core_run-with_line :
        (actual : Text) (o : Option Client)
        → core_run (with_line json crc32 checked now actual o)
          ≡ core_with_line actual (core_of crc32 o)
    unfolding with_line
    core_run-with_line actual none = refl
    core_run-with_line actual (some c) = refl

    core_run-verify_frame :
        (i : ℕ) (run : Option (Client × Text)) (frame : RecordedFrame)
        → core_run (verify_frame json crc32 checked now i run frame)
          ≡ core_verify (core_run run) frame
    unfolding verify_frame handle_raw
    core_run-verify_frame i none frame = refl
    core_run-verify_frame i (some (c, actual)) frame =
        core_run-with_line actual _
        ∙ ap (core_with_line actual)
            (core-handle_message crc32 (checked i) (now i) (parse_book_message json frame.raw) c)

    core_run-verify_frames :
        (i : ℕ) (run : Option (Client × Text)) (frames : List RecordedFrame)
        → core_run (verify_frames json crc32 checked now i run frames)
          ≡ core_verify_all (core_run run) frames
    unfolding verify_frames
    core_run-verify_frames i run [] = refl
    core_run-verify_frames i run (frame ∷ frames) =
        core_run-verify_frames (suc i) (verify_frame json crc32 checked now i run frame) frames
        ∙ ap (λ r. core_verify_all r frames) (core_run-verify_frame i run frame)

  -- The whole run of the frames, without the clock.
  abbrev pure_verify : Args → Option Text → List RecordedFrame → Outcome
  pure_verify args golden frames =
      core_verified args golden (core_verify_all (some (core (replay_client args 0), [])) frames)

  verified_pure :
      (checked now : ℕ → ℕ) (started : ℕ) (args : Args) (golden : Option Text)
      (frames : List RecordedFrame)
      → verified args golden
          (verify_frames json crc32 checked now 0 (some (replay_client args started, [])) frames)
        ≡ pure_verify args golden frames
  unfolding replay_client new_client
  verified_pure checked now started args golden frames =
      core_run-verified args golden _
      ∙ ap (core_verified args golden)
          (core_run-verify_frames checked now 0 (some (replay_client args started, [])) frames)

-- The answer against a golden text `h`, where `g` is what an update writes.
abbrev pub Answers : Text → Text → Outcome → Type 0
Answers g h o = ((o ≡ exits 0 (some h)) × (h ≡ g)) ⊎ ((o ≡ exits 1 (some h)) × ¬ (h ≡ g))

compared_lem : (g h : Text) → Answers g h (compared false g (some h))
unfolding compared
compared_lem g h = elim (Bool-cases (same_text g h)) [
  | inl e ↦ rw e (inl (refl, sym ((same_text-IsTest g h).0 e)))
  | inr n ↦ rw n (inr (refl, λ e. differ (same_text g h) n ((same_text-IsTest g h).1 (sym e))))
]
  where
    differ : (b : Bool) → b ≡ false → b ≡ true → ⊥
    differ b n y = ground (arith, n, y)

-- Where the outcome is zero, the reading gave frames.
with_frames-got :
    (o : Option (Reading (List RecordedFrame))) (next : List RecordedFrame → Outcome)
    (g : Option Text)
    → with_frames o next ≡ exits 0 g
    → (frames : List RecordedFrame) × (o ≡ some (got frames)) × (next frames ≡ exits 0 g)
unfolding with_frames
with_frames-got (some (got frames)) next g h = (frames, refl, h)
with_frames-got (some ended) next g h = cc
with_frames-got (some bad_magic_or_version) next g h = cc
with_frames-got (some truncated_header) next g h = cc
with_frames-got (some truncated_payload) next g h = cc
with_frames-got none next g h = cc

compared_update :
    (actual : Text) (old : Option Text) (g : Text)
    → compared true actual old ≡ exits 0 (some g)
    → actual ≡ g
unfolding compared
compared_update actual old g h = cc

module _ {Value : Type 0} (json : Simdjson Value) (crc32 : Text → ℕ) (args : Args) where
  abbrev updating : Args
  updating = record args { update_golden = true }

  abbrev comparing : Args
  comparing = record args { update_golden = false }

  core_verified-Answers :
      (run : Option (Core × Text)) (old : Option Text) (g h : Text)
      → core_verified json crc32 updating old run ≡ exits 0 (some g)
      → Answers g h (core_verified json crc32 comparing (some h) run)
  core_verified-Answers none old g h e = cc
  core_verified-Answers (some (k, actual)) old g h e =
      subst (λ t. Answers g h (compared false t (some h))) (sym (compared_update actual old g e))
        (compared_lem g h)

  -- Where the replayer, told to update, writes the golden text `g` for a session, then told to verify
  -- the session against a text `h` it ends with status 0 if `h` is `g` and with status 1 if it is not,
  -- and leaves the file as it is. The two runs may read any clocks and start at any time.
  pub run_verify_lem :
      (checked now checked' now' : ℕ → ℕ) (started started' : ℕ) (file : Option (List ℕ))
      (old : Option Text) (g h : Text)
      → run_verify json crc32 checked now updating started file old ≡ exits 0 (some g)
      → Answers g h (run_verify json crc32 checked' now' comparing started' file (some h))
  unfolding run_verify load_frames with_frames replay_client
  run_verify_lem checked now checked' now' started started' none old g h e = cc
  run_verify_lem checked now checked' now' started started' (some bytes) old g h e =
      let (frames, read, ended_well) =
        with_frames-got (read_all_recorded_frames bytes) _ (some g) e in
      rw read (
        rw (verified_pure json crc32 checked' now' started' comparing (some h) frames) (
          core_verified-Answers
            (core_verify_all json crc32 (some (core (replay_client args 0), [])) frames) old g h
            (sym (verified_pure json crc32 checked now started updating old frames) ∙ ended_well)))
