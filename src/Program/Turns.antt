-- ===== src/Program/Turns.antt =====
-- Any turns of the fibers and of the analysis thread of src/main.cpp, in any order, on a region with
-- room.
use hyperion_euntime_environ.Base.{
  sym, ◌+◌, ◌^◌, ◌<◌, ℕ, suc, ◌+◌, ◌≡◌, refl, ap, ◌∙◌, subst, Bool, Option, none, some, List, [],
  ◌∷◌, ◌==◌, if◌then◌else◌, length, arith, Bool-cases, Option-cases, inl, inr,
}
use hyperion_euntime_environ.MemoryManager.{Os, Manager, Outcome, done, ◌>>=◌}
use hyperion_euntime_environ.ProcessingUnit.{ProcessingUnit, Shown, Text, ingest}
use hyperion_euntime_environ.Monitor.{
  Monitor, update_status_stats, update_ghost_stats, update_input_text, trigger_input_flash,
  update_memory_view,
}
use hyperion_euntime_environ.Monitor.Present.{Terminal, obey_all}
use hyperion_euntime_environ.Frame.Scroll.{render-scroll, render-input}
use hyperion_euntime_environ.Frame.Session.{Call, IsInStep, feed, sent, feed-IsInStep}
use hyperion_euntime_environ.InputIngest.{check}
use hyperion_euntime_environ.InputIngest.Printable.{Printable, PrintablePipe, check-Printable}
use hyperion_euntime_environ.Tokenizer.{is_empty}
use hyperion_euntime_environ.Document.{Arithmetic}
use hyperion_euntime_environ.Program.{
  World, stats_text, opcodes, tell, take_key, refresh, hand_over, ingest_text, ui_turn,
  clipboard_turn, thread_turn, Turn, ui, clip, analysis, turn, turns,
}
use hyperion_euntime_environ.Program.Room.{
  HasRoom, same-HasRoom, update-HasRoom, analysis_turn-HasRoom, ingest-offset,
}

module _ (os : Os) where
  -- What a turn keeps.
  pub record IsRunning (n : ℕ) (w : World) : Type 0 where
    pub region : HasRoom os n w.unit w.ghost
    pub in_step : IsInStep w.monitor w.terminal
    pub frames : w.monitor.scroll_offset + n < 2 ^ 31
    pub printable : Printable w.monitor.input_text

  tell-IsInStep :
      (shown : Option Shown) (m : Monitor) (t : Terminal) → IsInStep m t → IsInStep (tell shown m) t
  unfolding tell feed sent obey_all
  tell-IsInStep none m t s = s
  tell-IsInStep (some shown) m t s =
      let m1 = update_status_stats (stats_text shown) m in
      let s1 : IsInStep m1 t = feed-IsInStep m t s (Call.stats (stats_text shown)) in
      let m2 = update_ghost_stats shown.page_faults shown.resident_pages m1 in
      let s2 : IsInStep m2 t =
        feed-IsInStep m1 t s1 (Call.ghost_stats shown.page_faults shown.resident_pages) in
      feed-IsInStep m2 t s2 (Call.memory_view (some (opcodes shown.view)))

  tell-scroll :
      (shown : Option Shown) (m : Monitor) → (tell shown m).scroll_offset ≡ m.scroll_offset
  unfolding tell update_memory_view update_ghost_stats update_status_stats
  tell-scroll none m = refl
  tell-scroll (some shown) m = ground arith

  tell-input : (shown : Option Shown) (m : Monitor) → (tell shown m).input_text ≡ m.input_text
  unfolding tell update_memory_view update_ghost_stats update_status_stats
  tell-input none m = refl
  tell-input (some shown) m = ground arith

  weaken-IsRunning : (n : ℕ) (w : World) → IsRunning (suc n) w → IsRunning n w
  weaken-IsRunning n w r = record {
    region =
        same-HasRoom os (suc n) n w.unit w.unit w.ghost w.ghost (omega arith) refl refl
          r.region.probe_inside r.region.probe_page r.region;
    in_step = r.in_step;
    frames = omega (arith, r.frames);
    printable = r.printable;
  }

  refresh-IsRunning :
      (n : ℕ) (w : World) → IsRunning (suc n) w → IsRunning n (hand_over (refresh w))
  unfolding refresh feed sent
  refresh-IsRunning n w r = record {
    region = (weaken-IsRunning n w r).region;
    in_step = feed-IsInStep w.monitor w.terminal r.in_step (Call.frame w.scheduler w.ghost);
    frames = omega (arith, r.frames, render-scroll w.scheduler w.ghost w.monitor);
    printable = subst Printable (sym (render-input w.scheduler w.ghost w.monitor)) r.printable;
  }

  take_key-IsRunning :
      (n : ℕ) (key : Option ℕ) (w : World) → IsRunning n w → IsRunning n (take_key key w)
  unfolding take_key
  take_key-IsRunning n none w r = r
  take_key-IsRunning n (some c) w r = elim (Bool-cases (c == b'q')) [
    | inl q ↦ rw q (record {
      region = r.region;
      in_step = r.in_step;
      frames = r.frames;
      printable = r.printable;
    })
    | inr other ↦ rw other r
  ]

  ui_turn-IsRunning :
      (f : Arithmetic) (n : ℕ) (key : Option ℕ) (rand : ℕ) (w : World)
      → IsRunning (suc n) w
      → (w' : World) × (ui_turn f os key rand w ≡ done w') × IsRunning n w'
  unfolding ui_turn
  ui_turn-IsRunning f n key rand w r =
      let w1 = take_key key w in
      let r1 = take_key-IsRunning (suc n) key w r in
      let (shown, u', m', e, region) = update-HasRoom os (suc n) rand w1.unit w1.ghost r1.region in
      let w2 = record w1 { unit = u'; ghost = m'; monitor = tell shown w1.monitor } in
      (
        hand_over (refresh w2),
        ap
            (λ (o : Outcome (Option Shown × ProcessingUnit × Manager)). o >>= (λ q. done (
              hand_over (
                refresh (record w1 { unit = q.1; ghost = q.2; monitor = tell (q.0) w1.monitor })))))
            e,
        refresh-IsRunning n w2 (record {
          region = region;
          in_step = tell-IsInStep shown w1.monitor w1.terminal r1.in_step;
          frames = omega (arith, r1.frames, tell-scroll shown w1.monitor);
          printable = subst Printable (sym (tell-input shown w1.monitor)) r1.printable;
        }),
      )

  ingest_text-IsRunning :
      (n : ℕ) (text : Text) (w : World)
      → Printable text
      → IsRunning n w
      → IsRunning n (ingest_text text w)
  unfolding ingest_text feed sent obey_all update_input_text trigger_input_flash
  ingest_text-IsRunning n text w drawn r = elim (Bool-cases (is_empty text)) [
    | inl empty ↦ rw empty r
    | inr full ↦
        let m1 = update_input_text text w.monitor in
        let s1 : IsInStep m1 w.terminal =
          feed-IsInStep w.monitor w.terminal r.in_step (Call.input text) in
        rw full (record {
          region =
              same-HasRoom os n n w.unit (ingest w.unit text) w.ghost w.ghost (omega arith) refl
                refl (omega (arith, ingest-offset os w.unit text, r.region.probe_inside))
                (omega (arith, ingest-offset os w.unit text, r.region.probe_page)) r.region;
          in_step = feed-IsInStep m1 w.terminal s1 Call.flash;
          frames = r.frames;
          printable = drawn;
        })
  ]

  over-IsRunning : (n : ℕ) (w : World) → IsRunning n w → IsRunning n (hand_over w)
  over-IsRunning n w r = record {
    region = r.region;
    in_step = r.in_step;
    frames = r.frames;
    printable = r.printable;
  }

  clipboard_turn-IsRunning :
      (f : Arithmetic) (n now : ℕ) (pipe : Option (List (List ℕ))) (w : World)
      → PrintablePipe pipe
      → IsRunning n w
      → IsRunning n (clipboard_turn f os now pipe w)
  unfolding clipboard_turn
  clipboard_turn-IsRunning f n now pipe w drawn r =
      let w1 = record w { clipboard = (check now pipe w.clipboard).1 } in
      let r1 : IsRunning n w1 = record {
        region = r.region;
        in_step = r.in_step;
        frames = r.frames;
        printable = r.printable;
      } in
      elim (Option-cases (check now pipe w.clipboard).0) [
        | inl none_told ↦ rw none_told (over-IsRunning n w1 r1)
        | inr (text, told) ↦ rw told (
            over-IsRunning n (ingest_text text w1) (
              ingest_text-IsRunning n text w1 (check-Printable now pipe w.clipboard text drawn told)
                r1))
      ]

  thread_turn-IsRunning :
      (f : Arithmetic) (n : ℕ) (w : World)
      → IsRunning (suc n) w
      → (w' : World) × (thread_turn f os w ≡ done w') × IsRunning n w'
  unfolding thread_turn
  thread_turn-IsRunning f n w r =
      let (u', m', e, region) = analysis_turn-HasRoom os f n w.unit w.ghost r.region in
      (
        record w { unit = u'; ghost = m' },
        ap
            (λ (o : Outcome (ProcessingUnit × Manager)).
              o >>= (λ q. done (record w { unit = q.0; ghost = q.1 })))
            e,
        record {
          region = region;
          in_step = r.in_step;
          frames = omega (arith, r.frames);
          printable = r.printable;
        },
      )

  -- The clipboard's text of a turn is printable ASCII.
  abbrev pub IsTyped : (f : Arithmetic) → Turn f os → Type 0
  IsTyped f (ui key rand) = Unit
  IsTyped f (clip now pipe) = PrintablePipe pipe
  IsTyped f analysis = Unit

  abbrev pub AllTyped : (f : Arithmetic) → List (Turn f os) → Type 0
  AllTyped f [] = Unit
  AllTyped f (t ∷ ts) = IsTyped f t × AllTyped f ts

  turn-IsRunning :
      (f : Arithmetic) (n : ℕ) (t : Turn f os) (w : World)
      → IsTyped f t
      → IsRunning (suc n) w
      → (w' : World) × (turn f os t w ≡ done w') × IsRunning n w'
  unfolding turn
  turn-IsRunning f n (ui key rand) w typed r = elim (Bool-cases w.g_running) [
    | inl runs ↦
        let (w', e, r') = ui_turn-IsRunning f n key rand w r in
        (
          w',
          ap (λ (b : Bool). if b then ui_turn f os key rand w else done (hand_over w)) runs ∙ e,
          r',
        )
    | inr over ↦ (
      hand_over w,
      ap (λ (b : Bool). if b then ui_turn f os key rand w else done (hand_over w)) over,
      over-IsRunning n w (weaken-IsRunning n w r),
    )
  ]
  turn-IsRunning f n (clip now pipe) w typed r = elim (Bool-cases w.g_running) [
    | inl runs ↦ (
      clipboard_turn f os now pipe w,
      ap (λ (b : Bool). if b then done (clipboard_turn f os now pipe w) else done (hand_over w))
          runs,
      clipboard_turn-IsRunning f n now pipe w typed (weaken-IsRunning n w r),
    )
    | inr over ↦ (
      hand_over w,
      ap (λ (b : Bool). if b then done (clipboard_turn f os now pipe w) else done (hand_over w))
          over,
      over-IsRunning n w (weaken-IsRunning n w r),
    )
  ]
  turn-IsRunning f n analysis w typed r = thread_turn-IsRunning f n w r

  pub turns-IsRunning :
      (f : Arithmetic) (n : ℕ) (ts : List (Turn f os)) (w : World)
      → AllTyped f ts
      → IsRunning (length ts + n) w
      → (w' : World) × (turns f os ts w ≡ done w') × IsRunning n w'
  unfolding turns
  turns-IsRunning f n [] w typed r = (w, refl, subst (λ k. IsRunning k w) (omega arith) r)
  turns-IsRunning f n (t ∷ ts) w typed r =
      let (w1, e1, r1) =
        turn-IsRunning f (length ts + n) t w typed.0 (subst (λ k. IsRunning k w) (omega arith) r) in
      let (w2, e2, r2) = turns-IsRunning f n ts w1 typed.1 r1 in
      (w2, ap (λ (o : Outcome World). o >>= turns f os ts) e1 ∙ e2, r2)
