-- ===== src/Stats/Totals.antt =====
-- Statistics of several windows add up.
use core_telegram_api.Common.{
  ◌≡◌, refl, sym, ap, ◌∙◌, true, false, List, [], ◌∷◌, ◌++◌, arith, nat_eq, bytes_eq, int_eq,
}
use core_telegram_api.Stats.{
  Event, request, response, update, ServerBotStat, no_stat, on_event, add, count_events,
}

on_event-add : (e : Event) (s t : ServerBotStat) → on_event e (add s t) ≡ add s (on_event e t)
unfolding on_event add
on_event-add update s t = ground arith
on_event-add (response true size n f) s t = ground arith
on_event-add (response false size n f) s t = ground arith
on_event-add (request size n f m) s t = ground arith

count_events-add :
    (es : List Event) (s t : ServerBotStat) → count_events es (add s t) ≡ add s (count_events es t)
unfolding count_events
count_events-add [] s t = refl
count_events-add (e ∷ es) s t =
    ap (count_events es) (on_event-add e s t) ∙ count_events-add es s (on_event e t)

add_nothing : (s : ServerBotStat) → add s no_stat ≡ s
unfolding add
add_nothing s = ground arith

count_events-append :
    (es fs : List Event) (s : ServerBotStat)
    → count_events (es ++ fs) s ≡ count_events fs (count_events es s)
unfolding count_events
count_events-append [] fs s = refl
count_events-append (e ∷ es) fs s = count_events-append es fs (on_event e s)

-- The statistics of two windows, one after the other and both counted from nothing, added up are
-- those of the events of both.
pub add_windows :
    (es fs : List Event)
    → add (count_events es no_stat) (count_events fs no_stat) ≡ count_events (es ++ fs) no_stat
add_windows es fs =
    sym (count_events-add fs (count_events es no_stat) no_stat)
    ∙ ap (count_events fs) (add_nothing (count_events es no_stat))
    ∙ sym (count_events-append es fs no_stat)
