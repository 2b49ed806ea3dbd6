-- ===== src/Listener/Tests.antt =====
-- The theorems about events and listeners, at inputs where their hypotheses hold.
use actix_async.Prelude.{◌≡◌, refl, true, false, none, some, [], ◌∷◌, arith}
use actix_async.Listener.{Event, update, created_entry, created, notified, polling, drop_listener}
use actix_async.Listener.View.{View}
use actix_async.Listener.Wait.{woken_on, passed_on}
use actix_async.Listener.Events.{Stands, Notified, woken, notify-Stands, drop_listener-done}

-- a listener that waits in the entry 0
abbrev waits : View
waits = record { done = []; waiting = (0, created) ∷ [] }

abbrev waiting_event : Event
waiting_event = record {
  inner = some (record {
    hint = 0;
    list = record {
      head = some 0;
      tail = some 0;
      start = some 0;
      len = 1;
      notified = 0;
      cache_used = true;
    };
    cells = update (λ _. none) 0 (some created_entry);
    fresh = 1;
    woken = [];
  });
}

waiting_event-Stands : Stands waiting_event waits
waiting_event-Stands = record {
  rep = record {
    segment = (refl, tt);
    distinct = (tt, tt);
    head = refl;
    tail = refl;
    start = refl;
    len = refl;
    count = refl;
    told = tt;
    untold = (refl, tt);
    cache = tt;
    below = (omega arith, tt);
    positive = omega arith;
  };
  hint = refl;
}

notify-Stands_example : Notified 1 waiting_event waits
notify-Stands_example = notify-Stands 1 waiting_event waits waiting_event-Stands (omega arith)

-- a second listener waits behind one that has been told
abbrev behind_event : Event
behind_event = record {
  inner = some (record {
    hint = 1;
    list = record {
      head = some 0;
      tail = some 1;
      start = some 1;
      len = 2;
      notified = 1;
      cache_used = true;
    };
    cells =
        update
          (update (λ _. none) 0
            (some (record { state = notified false; prev = none; next = some 1 })))
          1 (some (record { state = polling 9; prev = some 0; next = none }));
    fresh = 2;
    woken = [];
  });
}

behind_event-Stands :
    Stands behind_event (record { done = (0, notified false) ∷ []; waiting = (1, polling 9) ∷ [] })
behind_event-Stands = record {
  rep = record {
    segment = (refl, (refl, tt));
    distinct = ((omega arith, tt), (tt, tt));
    head = refl;
    tail = refl;
    start = refl;
    len = refl;
    count = refl;
    told = (refl, tt);
    untold = (refl, tt);
    cache = tt;
    below = (omega arith, (omega arith, tt));
    positive = omega arith;
  };
  hint = refl;
}

abbrev only_waiting : View
only_waiting = record { done = []; waiting = (1, polling 9) ∷ [] }

drop_listener-done_example :
    (ev' : Event) × (drop_listener (some 0) behind_event ≡ some ev')
    × (woken ev' ≡ woken_on false only_waiting (woken behind_event))
    × Stands ev' (passed_on false only_waiting)
drop_listener-done_example =
    drop_listener-done behind_event 0 false [] [] ((1, polling 9) ∷ []) behind_event-Stands
