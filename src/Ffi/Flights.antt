-- ===== src/Ffi/Flights.antt =====
-- updater/src/lib.rs: `check_for_update_singleflight`, as the steps of threads on a shared state. Each
-- call is a thread, each section under a mutex is one step, and the request itself, whose result may
-- be anything, lies between two steps. The map's keys are the requests, which derive `Eq` and `Hash`.
pub mod Inv
pub mod Quiet
pub mod Leader
pub mod Opening
pub mod Safety
pub mod Progress
pub mod Requests
mod Examples
use fl_codepush_box.Prelude.{ℕ, suc, ◌≡◌, Bool, true, Option, none, some, if◌then◌else◌, ◌==◌}

-- The test of the map's keys, and that it is equality.
pub record MapKey (K : Type 0) : Type 0 where
  pub same : K → K → Bool
  pub same_eq : (j k : K) → same j k ≡ true → j ≡ k
  pub same_refl : (k : K) → same k k ≡ true

-- Where a call stands: before the map is locked; a leader, which performs the request of its flight;
-- a leader that has stored the result, and has to take its flight out of the map; a follower that
-- holds the slot's lock and is about to look; one that waits for `ready`; and a call that has returned.
pub data Thread (K R : Type 0) : Type 0 where
  idle : Thread K R
  leading : K → ℕ → Thread K R
  stored : K → ℕ → R → Thread K R
  looking : K → ℕ → Thread K R
  waiting : K → ℕ → Thread K R
  returned : K → R → Thread K R

-- `flights` is the map; flights are numbered as they are made, `next` being the first free number.
-- `slots` has the results, and `asked` the request that a flight was made for.
pub record System (K R : Type 0) : Type 0 where
  pub threads : ℕ → Thread K R
  pub flights : K → Option ℕ
  pub slots : ℕ → Option R
  pub asked : ℕ → Option K
  pub next : ℕ

abbrev pub start : {K R : Type 0} → System K R
start = record {
  threads = λ i. idle;
  flights = λ k. none;
  slots = λ f. none;
  asked = λ f. none;
  next = 0;
}

abbrev pub put : {A : Type 0} → ℕ → A → (ℕ → A) → ℕ → A
put i a m j = if i == j then a else m j

-- `notify_all`: the threads that wait for the flight look again.
abbrev pub woken : {K R : Type 0} → ℕ → Thread K R → Thread K R
woken f (waiting k g) = if f == g then looking k g else waiting k g
woken f t = t

abbrev pub put_flight : {K : Type 0} → MapKey K → K → Option ℕ → (K → Option ℕ) → K → Option ℕ
put_flight key k f m j = if key.same k j then f else m j

module _ {K R : Type 0} (key : MapKey K) where
  -- The section under the lock of the map: a follower of the flight there, or the leader of a new one.
  unfoldable pub entered : ℕ → K → System K R → Option ℕ → System K R
  entered i k s (some f) = record s { threads = put i (looking k f) s.threads }
  entered i k s none = record s {
    threads = put i (leading k s.next) s.threads;
    flights = put_flight key k (some s.next) s.flights;
    slots = put s.next none s.slots;
    asked = put s.next (some k) s.asked;
    next = suc s.next;
  }

  unfoldable pub enter : ℕ → K → System K R → System K R
  unfolding entered
  enter i k s = entered i k s (s.flights k)

  -- The leader's section under the lock of the slot.
  unfoldable pub publish : ℕ → K → ℕ → R → System K R → System K R
  publish i k f r s = record s {
    threads = put i (stored k f r) (λ j. woken f (s.threads j));
    slots = put f (some r) s.slots;
  }

  -- The leader's last section, under the lock of the map.
  unfoldable pub remove : ℕ → K → R → System K R → System K R
  remove i k r s = record s {
    threads = put i (returned k r) s.threads;
    flights = put_flight key k none s.flights;
  }

  -- The follower's loop: it returns the result, or waits, which frees the lock.
  unfoldable pub looked : ℕ → K → ℕ → System K R → Option R → System K R
  looked i k f s none = record s { threads = put i (waiting k f) s.threads }
  looked i k f s (some r) = record s { threads = put i (returned k r) s.threads }

  unfoldable pub look : ℕ → K → ℕ → System K R → System K R
  unfolding looked
  look i k f s = looked i k f s (s.slots f)

  -- A wake-up without a notification.
  unfoldable pub wake : ℕ → K → ℕ → System K R → System K R
  wake i k f s = record s { threads = put i (looking k f) s.threads }

  pub data Step (s : System K R) : System K R → Type 0 where
    enters : (i : ℕ) (k : K) → s.threads i ≡ idle → Step s (enter i k s)
    publishes :
        (i : ℕ) (k : K) (f : ℕ) (r : R) → s.threads i ≡ leading k f → Step s (publish i k f r s)
    removes : (i : ℕ) (k : K) (f : ℕ) (r : R) → s.threads i ≡ stored k f r → Step s (remove i k r s)
    looks : (i : ℕ) (k : K) (f : ℕ) → s.threads i ≡ looking k f → Step s (look i k f s)
    wakes : (i : ℕ) (k : K) (f : ℕ) → s.threads i ≡ waiting k f → Step s (wake i k f s)

  -- A run from a state.
  pub data Run (s : System K R) : System K R → Type 0 where
    here : Run s s
    after : {t u : System K R} → Run s t → Step t u → Run s u
