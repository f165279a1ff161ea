-- ===== src/Meter/Registry/Calls.antt =====
-- meter/limits.go and meter/meter.go: `releaseConn` and `Open` count a connection exactly if they
-- admit it.
use ntr.Prelude.{
  ℕ, ◌≡◌, refl, sym, ap, ◌∙◌, arith, Bool, true, false, Option, none, some, inl, inr, Bool-cases,
  Option-cases, if◌then◌else◌,
}
use mathlib.Core.Path.{subst}
use ntr.Prelude.Maps.{nat_Key, insert}
use ntr.Addr.{Addr}
use ntr.Meter.Counter.{ℤ, inc, dec, is_zero, dec-inc}
use ntr.Meter.Cell.{Cell, ConnHandle, add_guarded, add64}
use ntr.Meter.IpGate.Sizes.{is_some}
use ntr.Meter.Registry.{
  Registry, SharedLimit, cell_of, modify_cell, unit_at, limit_of, acquire_ip, release_ip,
  try_acquire_conn, release_conn, conn_opened, register, open_conn,
}
use ntr.Meter.Registry.Effects.{
  Moved, Moves, UnitMoves, same, Moved-refl, Moved-trans, modify_cell-Moved, modify_both-Moved,
  limit_of-eq, modify_cell-kept, modify_both-swap, limit_of-modify_cell, untouched,
}
use ntr.Meter.Registry.Answers.{counted, Answer, try_acquire_conn-Answer}

module _ (r : Registry) (id : ℕ) where
  released : Cell → Cell
  released c = record c { conns_live = dec c.conns_live }

  released-Moves : Moves dec released (cell_of r id)
  unfolding released
  released-Moves = record { conn = refl; most = refl; unit = refl }

  unit_released : SharedLimit → SharedLimit
  unit_released u = record u { live = dec u.live }

  unit_released-Moves : (u : SharedLimit) → UnitMoves dec unit_released u
  unfolding unit_released
  unit_released-Moves u = record { live = refl; most = refl }

  limit_of-released : limit_of (modify_cell released id r) id ≡ limit_of r id
  limit_of-released = limit_of-modify_cell dec released id r released-Moves

  -- The counters of `id` go back by one.
  pub release_conn-Moved : Moved dec id r (release_conn r id)
  unfolding release_conn released unit_released
  release_conn-Moved = elim (Option-cases (limit_of r id)) [
    | inl alone ↦
        rw (limit_of-released ∙ alone, release_conn)
          (modify_cell-Moved dec released id r released-Moves alone)
    | inr (s, at) ↦
        rw (limit_of-released ∙ at, release_conn)
          (subst (Moved dec id r) (sym (modify_both-swap released unit_released id s r)) (
            modify_both-Moved dec released unit_released id s r released-Moves
              (unit_released-Moves (unit_at r s)) at))
  ]

acquire_ip-Moved :
    (g : Option ℕ) (src : Addr) (r : Registry) (id : ℕ) → Moved same id r (acquire_ip g src r).1
unfolding acquire_ip
acquire_ip-Moved none src r id = Moved-refl id r
acquire_ip-Moved (some g) src r id = untouched id refl refl

pub release_ip-Moved :
    (g : Option ℕ) (src : Addr) (r : Registry) (id : ℕ) → Moved same id r (release_ip g src r)
unfolding release_ip
release_ip-Moved none src r id = Moved-refl id r
release_ip-Moved (some g) src r id = untouched id refl refl

opened-Moves : (conn : ℕ) (h : ConnHandle) (c : Cell) → Moves same (conn_opened conn h) c
unfolding conn_opened add_guarded
opened-Moves conn h c = record { conn = ground arith; most = ground arith; unit = ground arith }

-- Who is refused at last is taken back.
abbrev pub taken_back : Bool → ℤ → ℤ
taken_back b z = if b then z else dec z

module _ (r : Registry) (id : ℕ) (src : Addr) (now : ℕ) where
  register-Moved :
      Moved (taken_back (is_some (register r id src now).0)) id r (register r id src now).1
  unfolding register is_some
  register-Moved =
      let conn = add64 r.conn_seq 1 in
      let h : ConnHandle = record { kill = conn; last_active = now; src = src } in
      elim (Bool-cases (add_guarded (cell_of r id) conn h).0) [
        | inl on ↦
            rw (on, register)
              (let numbered : Registry = record r { conn_seq = conn; idx = insert conn id r.idx } in
                Moved-trans same same same id (untouched id {r = r} {q = numbered} refl refl)
                  (modify_cell-kept (conn_opened conn h) id numbered
                    (opened-Moves conn h (cell_of numbered id)))
                  (λ z. refl))
        | inr off ↦
            rw (off, register)
              (let numbered : Registry = record r { conn_seq = conn } in
                Moved-trans same dec dec id (untouched id {r = r} {q = numbered} refl refl)
                  (Moved-trans dec same dec id (release_conn-Moved numbered id)
                    (release_ip-Moved (cell_of r id).ipg src (release_conn numbered id) id)
                    (λ z. refl))
                  (λ z. refl))
      ]

refuses : (id : ℕ) {r q : Registry} → Moved same id r q → Answer r id false q
refuses id m = record {
  moved = m;
  own_room = λ no_ l z. ground (arith, no_);
  unit_room = λ s no_ l. ground (arith, no_);
}

taken_back-counted : (b : Bool) (z : ℤ) → counted b z ≡ taken_back b (inc z)
taken_back-counted true z = refl
taken_back-counted false z = sym (dec-inc z)

module _ {r q p : Registry} (id : ℕ) where
  -- What counts nothing may go before an answer.
  answers_after : (b : Bool) → Moved same id r q → Answer q id b p → Answer r id b p
  answers_after b m a =
      let limits = limit_of-eq r q id (m.shares id) m.unit_maxes in
      record {
        moved = Moved-trans same (counted b) (counted b) id m a.moved (λ z. refl);
        own_room = λ t l z. ground (
          arith,
          a.own_room t (limits ∙ l) (ap is_zero (m.maxes id) ∙ z),
          m.maxes id,
          m.conns id,
        );
        unit_room =
            λ s t l. ground (arith, a.unit_room s t (limits ∙ l), m.unit_maxes s, m.lives s);
      }

  -- Who found room may still be taken back.
  answers_then : (b : Bool) → Answer r id true q → Moved (taken_back b) id q p → Answer r id b p
  answers_then b a m = record {
    moved = Moved-trans inc (taken_back b) (counted b) id a.moved m (taken_back-counted b);
    own_room = λ t. a.own_room refl;
    unit_room = λ s t. a.unit_room s refl;
  }

module _ (r : Registry) (id : ℕ) (src : Addr) (now : ℕ) where
  made : Registry
  made = modify_cell (λ c. c) id r

  gate_asked : Bool × Registry
  gate_asked = acquire_ip (cell_of made id).ipg src made

  before_limit : Moved same id r gate_asked.1
  unfolding made gate_asked
  before_limit =
      Moved-trans same same same id
        (modify_cell-kept (λ c. c) id r (record { conn = refl; most = refl; unit = refl }))
        (acquire_ip-Moved (cell_of made id).ipg src made id) (λ z. refl)

  limit_asked : Bool × Registry
  limit_asked = try_acquire_conn gate_asked.1 id

  limit-Answer : Answer r id limit_asked.0 limit_asked.1
  unfolding limit_asked
  limit-Answer =
      answers_after id limit_asked.0 before_limit (try_acquire_conn-Answer gate_asked.1 id)

  -- A connection that `Open` admits is counted and found room, and one that it refuses is not counted.
  pub open_conn-Answer : Answer r id (is_some (open_conn r id src now).0) (open_conn r id src now).1
  unfolding open_conn made gate_asked limit_asked is_some
  open_conn-Answer = elim (Bool-cases gate_asked.0) [
    | inr full ↦ rw (full, open_conn) (refuses id before_limit)
    | inl free ↦ elim (Bool-cases limit_asked.0) [
      | inr many ↦
          rw (free, open_conn)
            (rw (many, open_conn)
              (refuses id (
                Moved-trans same same same id
                  (subst (λ b. Answer r id b limit_asked.1) many limit-Answer).moved
                  (release_ip-Moved (cell_of made id).ipg src limit_asked.1 id) (λ z. refl))))
      | inl room ↦
          rw (free, open_conn)
            (rw (room, open_conn)
              (answers_then id (is_some (register limit_asked.1 id src now).0)
                (subst (λ b. Answer r id b limit_asked.1) room limit-Answer)
                (register-Moved limit_asked.1 id src now)))
    ]
  ]
