-- ===== src/Ui/OfflineCache/Schedule.antt =====
-- The buffer of the cache and its timer.
use forge_sight.Prelude.{
  ◌≡◌, refl, inl, inr, true, false, List, [], ◌∷◌, Text, is_empty, Bool-cases, arith,
}
use forge_sight.Database.{Run}
use forge_sight.Ui.OfflineCache.{
  CachedDeviceState, Sqlite, OfflineCache, save_device_state, write_pending, flush,
  load_device_states, open_cache,
}
use forge_sight.Ui.OfflineCache.Reads.{CacheEvent, saves, flushes, loads, event}

-- `open` is called again, or one of the other events.
pub data CacheCall (D : Type 0) : Type 0 where
  reopens : Text → CacheCall D
  uses : CacheEvent D → CacheCall D

-- States wait only in a cache that is open, and while they wait the timer runs.
pub record IsScheduled {D : Type 0} (c : OfflineCache D) : Type 0 where
  pub scheduled : is_empty c.pending ≡ false → (c.timer ≡ true) × (c.is_open ≡ true)

module _ {D : Type 0} (S : Sqlite D)
    (walk : List (Text × CachedDeviceState D) → List (Text × CachedDeviceState D)) where
  open S use {World}

  pub call : CacheCall D → OfflineCache D → Run World (OfflineCache D)
  call (reopens path) c w = let (r, w) = open_cache S walk path c w in (r.1, w)
  call (uses e) c w = event S walk e c w

  pub run_calls : List (CacheCall D) → OfflineCache D → Run World (OfflineCache D)
  unfolding call
  run_calls [] c w = (c, w)
  run_calls (e ∷ calls) c w = let (c, w) = call e c w in run_calls calls c w

  write_pending-written :
      (c : OfflineCache D) (w : World) → is_empty (write_pending S walk c w).0.pending ≡ true
  unfolding write_pending
  write_pending-written c w = ground arith

  written-IsScheduled : (c : OfflineCache D) → is_empty c.pending ≡ true → IsScheduled c
  written-IsScheduled c e = record { scheduled = λ h. ground arith }

  saved-IsScheduled :
      (s : CachedDeviceState D) (c : OfflineCache D)
      → IsScheduled c
      → IsScheduled (save_device_state s c)
  unfolding save_device_state
  saved-IsScheduled s c h = elim (Bool-cases c.is_open) [
    | inl o ↦ simp o record { scheduled = λ waiting. (refl, refl) }
    | inr o ↦ simp o h
  ]

  loaded-IsScheduled :
      (c : OfflineCache D) (w : World)
      → IsScheduled c
      → IsScheduled (load_device_states S walk c w).0.0
  unfolding load_device_states
  loaded-IsScheduled c w h = record {
    scheduled = λ waiting. ground (arith, h.scheduled, write_pending-written c w);
  }

  call-IsScheduled :
      (e : CacheCall D) (c : OfflineCache D) (w : World)
      → IsScheduled c
      → IsScheduled (call e c w).0
  unfolding call open_cache event flush
  call-IsScheduled (reopens path) c w h = record {
    scheduled = λ waiting. ground (arith, write_pending-written c w);
  }
  call-IsScheduled (uses (saves s)) c w h = saved-IsScheduled s c h
  call-IsScheduled (uses flushes) c w h =
      written-IsScheduled _ (write_pending-written (record c { timer = false }) w)
  call-IsScheduled (uses loads) c w h = loaded-IsScheduled c w h

  -- A state that is saved is always on its way to the file: after any calls that begin in a cache with
  -- this property, as a new one has it, states wait in the buffer only while the file is open and the
  -- flush timer runs.
  pub run_calls-IsScheduled :
      (calls : List (CacheCall D)) (c : OfflineCache D) (w : World)
      → IsScheduled c
      → IsScheduled (run_calls calls c w).0
  unfolding run_calls
  run_calls-IsScheduled [] c w h = h
  run_calls-IsScheduled (e ∷ calls) c w h =
      run_calls-IsScheduled calls (call e c w).0 (call e c w).1 (call-IsScheduled e c w h)
