-- ===== src/Schema/Reload/Runs.antt =====
-- A run of the cache in a given order of the steps, to evaluate.
use myrest.Prelude.{ℕ, zero, suc, ◌≡◌, refl, ◌∙◌, ap, Option, none, some, List, [], ◌∷◌, ◌++◌}
use myrest.Schema.Reload.{
  Thread, Moved, step_thread, System, Call, begin_call, after_move, calls, moves, Reach, next,
}

-- A call begins, or the goroutine at a position makes its next step, if it can.
pub data Choice (E : Type 0) : Type 0 where
  begins : Call E → Choice E
  advances : ℕ → Choice E

module _ {E : Type 0} where
  abbrev pub move_thread :
      System E → List (Thread E) → Option (Moved E) → List (Thread E) → System E
  move_thread s before none after = s
  move_thread s before (some m) after = after_move s before m after

  unfoldable pub advance : ℕ → System E → List (Thread E) → List (Thread E) → System E
  unfolding step_thread
  advance n s before [] = s
  advance zero s before (thread ∷ after) =
      move_thread s before (step_thread s.mu s.snapshot thread) after
  advance (suc n) s before (thread ∷ after) = advance n s (before ++ thread ∷ []) after

  unfoldable pub run : List (Choice E) → System E → System E
  unfolding advance
  run [] s = s
  run (begins call ∷ choices) s = run choices (record s { threads = begin_call call ∷ s.threads })
  run (advances n ∷ choices) s = run choices (advance n s [] s.threads)

  append-one :
      (before : List (Thread E)) (thread : Thread E) (after : List (Thread E))
      → before ++ thread ∷ after ≡ (before ++ thread ∷ []) ++ after
  append-one [] thread after = refl
  append-one (x ∷ before) thread after = ap (◌∷◌ x) (append-one before thread after)

  move_thread-Reach :
      (s t : System E) (before : List (Thread E)) (thread : Thread E) (after : List (Thread E))
      (answer : Option (Moved E))
      → Reach s t
      → t.threads ≡ before ++ thread ∷ after
      → step_thread t.mu t.snapshot thread ≡ answer
      → Reach s (move_thread t before answer after)
  move_thread-Reach s t before thread after none reach at step = reach
  move_thread-Reach s t before thread after (some m) reach at step =
      next reach (moves before thread after m at step refl)

  advance-Reach :
      (n : ℕ) (s t : System E) (before after : List (Thread E))
      → Reach s t
      → t.threads ≡ before ++ after
      → Reach s (advance n t before after)
  unfolding advance
  advance-Reach zero s t before [] reach at = reach
  advance-Reach (suc n) s t before [] reach at = reach
  advance-Reach zero s t before (thread ∷ after) reach at =
      move_thread-Reach s t before thread after _ reach at refl
  advance-Reach (suc n) s t before (thread ∷ after) reach at =
      advance-Reach n s t (before ++ thread ∷ []) after reach (at ∙ append-one before thread after)

  pub run-Reach : (choices : List (Choice E)) (s t : System E) → Reach s t → Reach s (run choices t)
  unfolding run
  run-Reach [] s t reach = reach
  run-Reach (begins call ∷ choices) s t reach = run-Reach choices s _ (next reach (calls call refl))
  run-Reach (advances n ∷ choices) s t reach =
      run-Reach choices s _ (advance-Reach n s t [] t.threads reach refl)
