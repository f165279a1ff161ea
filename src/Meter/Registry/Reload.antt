-- ===== src/Meter/Registry/Reload.antt =====
-- meter/limits.go: `SetLimitsShared` while connections of the users are open, as a reload of the
-- configuration does.
use ntr.Prelude.{
  ℕ, zero, suc, ◌+◌, ◌≡◌, refl, sym, ap, ◌∙◌, arith, Option, none, some, List, [], ◌∷◌, ◌++◌,
}
use ntr.Prelude.Maps.{nat_Key, nat_eq_iff, insert, lookup-insert}
use ntr.Addr.{Addr}
use ntr.Meter.Counter.{ℤ, pos, negsuc, inc, dec, dec-inc}
use ntr.Meter.IpGate.Sizes.{is_some}
use ntr.Meter.Registry.{Registry, Limits, SharedLimit, unit_at, modify_cell, open_conn}
use ntr.Meter.Registry.Control.{new_gate_ref, share, set_limits_shared}
use ntr.Meter.Registry.Effects.{Moved, same, is_limit}
use ntr.Meter.Registry.Answers.{Answer}
use ntr.Meter.Registry.Calls.{open_conn-Answer}
use ntr.Meter.Registry.Uncounted.{run_call-Moved, close_conn-Moved}
use ntr.Meter.Registry.World.{
  World, opened_by, Step, opens, closes, calls, Steps, stay, next, tally, tally-append,
  is_limit_same, tally_same,
}

-- `k` more.
unfoldable pub shift : ℕ → ℤ → ℤ
shift zero z = z
shift (suc k) z = inc (shift k z)

inc-dec : (z : ℤ) → inc (dec z) ≡ z
unfolding inc dec
inc-dec (pos zero) = refl
inc-dec (pos (suc n)) = refl
inc-dec (negsuc n) = refl

inc-pos : (n : ℕ) → inc (pos n) ≡ pos (suc n)
unfolding inc
inc-pos n = refl

dec-pos : (n : ℕ) → dec (pos (suc n)) ≡ pos n
unfolding dec
dec-pos n = refl

shift-inc : (k : ℕ) (z : ℤ) → shift k (inc z) ≡ inc (shift k z)
unfolding shift
shift-inc zero z = refl
shift-inc (suc k) z = ap inc (shift-inc k z)

shift-dec : (k : ℕ) (z : ℤ) → shift k (dec z) ≡ dec (shift k z)
unfolding shift
shift-dec zero z = refl
shift-dec (suc k) z = ap inc (shift-dec k z) ∙ inc-dec (shift k z) ∙ sym (dec-inc (shift k z))

shift-pos : (k : ℕ) → shift k (pos 0) ≡ pos k
unfolding shift
shift-pos zero = refl
shift-pos (suc k) = ap inc (shift-pos k) ∙ inc-pos k

module _ (s k : ℕ) where
  -- The counter of the unit is `k` behind the connections of its users.
  Behind : World → Type 0
  Behind w = shift k (unit_at w.reg s).live ≡ pos (tally (λ a. is_limit w.reg a s) w.opened)

  same-Behind :
      (a : ℕ) (r q : Registry) (ids : List ℕ)
      → Moved same a r q
      → Behind (record { reg = r; opened = ids })
      → Behind (record { reg = q; opened = ids })
  unfolding Behind
  same-Behind a r q ids m b = ground (arith, b, m.lives s, tally_same m s ids)

  opens-Behind :
      (r : Registry) (ids : List ℕ) (id : ℕ) (src : Addr) (now : ℕ) (o : Option ℕ)
      → Answer r id (is_some o) (open_conn r id src now).1
      → Behind (record { reg = r; opened = ids })
      → Behind (record { reg = (open_conn r id src now).1; opened = opened_by o id ids })
  unfolding Behind is_some tally
  opens-Behind r ids id src now none a b = same-Behind id r _ ids a.moved b
  opens-Behind r ids id src now (some conn) a b = ground (
    arith,
    b,
    a.moved.lives s,
    tally_same a.moved s ids,
    is_limit_same a.moved s id,
    shift-inc k (unit_at r s).live,
    inc-pos (tally (λ a. is_limit r a s) ids),
  )

  closes-Behind :
      (r q : Registry) (before after : List ℕ) (id : ℕ)
      → Moved dec id r q
      → Behind (record { reg = r; opened = before ++ (id ∷ after) })
      → Behind (record { reg = q; opened = before ++ after })
  unfolding Behind
  closes-Behind r q before after id m b = ground (
    arith,
    b,
    m.lives s,
    tally_same m s (before ++ after),
    tally-append (λ a. is_limit r a s) before after id,
    shift-dec k (unit_at r s).live,
    dec-pos (tally (λ a. is_limit r a s) (before ++ after)),
  )

  Step-Behind : {w x : World} → Step w x → Behind w → Behind x
  Step-Behind (opens r ids id src now) b =
      opens-Behind r ids id src now (open_conn r id src now).0 (open_conn-Answer r id src now) b
  Step-Behind (closes r before after id src conn m) b =
      closes-Behind r _ before after id (close_conn-Moved r id src conn m) b
  Step-Behind (calls r ids c) b = same-Behind 0 r _ ids (run_call-Moved c r 0) b

  Steps-Behind : {w x : World} → Steps w x → Behind w → Behind x
  Steps-Behind (stay w) b = b
  Steps-Behind (next t u) b = Step-Behind u (Steps-Behind t b)

share-unit :
    (s t : ℕ) (g : Option ℕ) (ids : List ℕ) (r : Registry)
    → unit_at (share s g ids r) t ≡ unit_at r t
unfolding share unit_at modify_cell
share-unit s t g [] r = refl
share-unit s t g (id ∷ ids) r =
    share-unit s t g ids
      (modify_cell (λ c. record c { shared = some s; ipg = g; max_conns = pos 0 }) id r)

unit_at_new :
    (s : ℕ) (u : SharedLimit) (r : Registry)
    → unit_at (record r { units = insert s u r.units; next_ref = s + 1 }) s ≡ u
unfolding unit_at
unit_at_new s u r = ground (arith, lookup-insert s s u r.units, nat_eq_iff s s)

module _ (r : Registry) (ids : List ℕ) (l : Limits) where
  -- The unit that is made.
  abbrev pub new_unit : ℕ
  new_unit = (new_gate_ref l.max_ips r).1.next_ref

  new_unit-live : (unit_at (set_limits_shared r ids l) new_unit).live ≡ pos 0
  unfolding set_limits_shared
  new_unit-live =
      let g = (new_gate_ref l.max_ips r).0 in
      let r' = (new_gate_ref l.max_ips r).1 in
      let u : SharedLimit = record {
        max_conns = l.max_conns;
        live = pos 0;
        rejected = 0;
        ipg = g;
      } in
      let made : Registry = record r' {
        units = insert new_unit u r'.units;
        next_ref = new_unit + 1;
      } in
      ap (λ (v : SharedLimit). v.live)
        (share-unit new_unit new_unit g ids made ∙ unit_at_new new_unit u r')

  -- When the limit of users is set for a new unit, whatever connections are open then, and whatever
  -- connections come, are refused, are ended from outside and close afterwards, and whatever users are
  -- disabled and enabled, as long as no limit is set again: the counter of the unit stays behind the
  -- connections of its users that are open, by as many of them as were open when it was made.
  pub Steps-reloaded :
      (opened : List ℕ) (w : World)
      → Steps (record { reg = set_limits_shared r ids l; opened = opened }) w
      → shift
          (tally (λ id. is_limit (set_limits_shared r ids l) id new_unit) opened)
          (unit_at w.reg new_unit).live
        ≡ pos (tally (λ id. is_limit w.reg id new_unit) w.opened)
  unfolding Behind
  Steps-reloaded opened w t =
      let k = tally (λ id. is_limit (set_limits_shared r ids l) id new_unit) opened in
      Steps-Behind new_unit k t (ap (shift k) new_unit-live ∙ shift-pos k)
