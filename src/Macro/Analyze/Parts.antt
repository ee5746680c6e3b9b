-- ===== src/Macro/Analyze/Parts.antt =====
-- A run of the analysis that returns, taken apart.
use rtfm.Common.{ℕ, ◌≡◌, Bool, HashMap, ok, >>=-eq-ok, ok-injective, subst}
use rtfm.Macro.Syntax.{App, Ident, FreeInterrupts}
use rtfm.Macro.Analyze.{
  Analysis, analyze, ownerships, capacities, timer_queue, dispatchers, spawn_pass, schedule_pass,
}

pub record Parts (debug : Bool) (app : App) (a : Analysis) : Type 0 where
  pub rest : FreeInterrupts
  pub spawned : HashMap Ident ℕ
  pub ownerships_ok : ownerships app ≡ ok (a.ownerships, a.needs_sync)
  pub capacities_ok : capacities debug app ≡ ok a.capacities
  pub timer_queue_ok :
      timer_queue debug app a.capacities
      ≡ ok (a.timer_queue.capacity, a.timer_queue.priority, a.timer_queue.tasks)
  pub dispatchers_ok : dispatchers debug app a.capacities ≡ ok (a.dispatchers, rest)
  pub spawn_pass_ok :
      spawn_pass app a.dispatchers
      ≡ ok (record {
        free_queues = spawned;
        ready_queues = a.ready_queues;
        needs_send = a.needs_send;
      })
  pub schedule_pass_ok :
      schedule_pass app spawned a.timer_queue.priority ≡ ok (a.free_queues, a.timer_queue.ceiling)

pub analyze-Parts :
    (debug : Bool) (app : App) (a : Analysis) → analyze debug app ≡ ok a → Parts debug app a
unfolding analyze
analyze-Parts debug app a h =
    let (o, eo, ho) = >>=-eq-ok (ownerships app) _ h in
    let (c, ec, hc) = >>=-eq-ok (capacities debug app) _ ho in
    let (t, et, ht) = >>=-eq-ok (timer_queue debug app c) _ hc in
    let (d, ed, hd) = >>=-eq-ok (dispatchers debug app c) _ ht in
    let (s, es, hs) = >>=-eq-ok (spawn_pass app d.0) _ hd in
    let (f, ef, hf) = >>=-eq-ok (schedule_pass app s.free_queues t.1) _ hs in
    subst (Parts debug app) (ok-injective hf) (record {
      rest = d.1;
      spawned = s.free_queues;
      ownerships_ok = eo;
      capacities_ok = ec;
      timer_queue_ok = et;
      dispatchers_ok = ed;
      spawn_pass_ok = es;
      schedule_pass_ok = ef;
    })
