-- ===== src/Server/Atomic.antt =====
-- The retry loop of internal/server acts at one instant.
-- A decision that writes only what it read, at the revision that it read, or creates what is absent.
use k_lite.Common.{
  Bool-cases, Option-cases, String, ap, arith, false, inl, inr, lookup, none, refl, some, subst,
  suc, sym, true, zero, ℕ, ◌+◌, ◌∙◌, ◌≡◌,
}
use k_lite.Object.Registry.{Kind, kind_of, kind_of-with_meta, meta_of, meta_of-with_meta}
use k_lite.Store.Stale.{stale_put}
use k_lite.Store.{
  Entry, Error, Memory, Result, err, get, invalid_name, not_found, ok, put, put_as, read_entry,
  valid_name,
}
use k_lite.Object.Types.{Meta, Object}
use k_lite.Common.Int.{pos, ℤ}
use k_lite.Server.Cas.{
  Attempt, Intent, Turn, answer, cas_loop, cas_turn, cas_write, done, is_error, over, settle, write,
}
use k_lite.Store.Changes.{IsBounded, Reach, Reach-IsBounded}
use k_lite.Store.Laws.{put-put_as}
use k_lite.Server.Moments.{
  Intent-cases, IsMoment, Turn-cases, at_read, at_retry, at_write, turn-Reach,
}

pub record IsPinned {A : Type 0} (k : Kind) (name : String)
    (decide : Result (Object × ℕ) → Intent A) : Type 0 where
  pub on_object :
      (o : Object) (rev : ℕ) (a : A) (new : Object) (x : ℤ) (lost : Error)
      → kind_of o ≡ some k
      → (meta_of o).name ≡ name
      → decide (ok (o, rev)) ≡ write a new x lost
      → (x ≡ pos rev) × (kind_of new ≡ some k) × ((meta_of new).name ≡ name)
  pub on_error :
      (e : Error) (a : A) (new : Object) (x : ℤ) (lost : Error)
      → decide (err e) ≡ write a new x lost
      → (e ≡ not_found) × (x ≡ pos 0) × (kind_of new ≡ some k) × ((meta_of new).name ≡ name)

-- What the whole call does at one state of the store.
pub data IsAtomic {A : Type 0} (now : ℕ) (k : Kind) (name : String)
    (decide : Result (Object × ℕ) → Intent A) (a : A) (s m' : Memory) : Type 0 where
  answered : decide (get k name s) ≡ answer a → m' ≡ s → IsAtomic now k name decide a s m'
  written :
      (new : Object) (x : ℤ) (lost : Error) (r : ℕ)
      → decide (get k name s) ≡ write a new x lost
      → put now new x s ≡ (ok r, m')
      → IsAtomic now k name decide a s m'

-- What a read finds.
get_found :
    (k : Kind) (name : String) (m : Memory) (e : Entry)
    → valid_name name ≡ true
    → lookup name (m.objs k) ≡ some e
    → get k name m ≡ ok (read_entry e, e.rev)
unfolding get
get_found k name m e v h = rw (v, h, get) refl

get-none :
    (k : Kind) (name : String) (m : Memory)
    → valid_name name ≡ true
    → lookup name (m.objs k) ≡ none
    → get k name m ≡ err not_found
unfolding get
get-none k name m v h = rw (v, h, get) refl

get_invalid :
    (k : Kind) (name : String) (m : Memory)
    → valid_name name ≡ false
    → get k name m ≡ err invalid_name
unfolding get
get_invalid k name m v = rw (v, get) refl

kind_of-read_entry : (e : Entry) → kind_of (read_entry e) ≡ kind_of e.obj
unfolding read_entry
kind_of-read_entry e = kind_of-with_meta _ e.obj

name-read_entry :
    (e : Entry) (k : Kind)
    → kind_of e.obj ≡ some k
    → (meta_of (read_entry e)).name ≡ (meta_of e.obj).name
unfolding read_entry
name-read_entry e k h = ap (λ (a : Meta). a.name) (meta_of-with_meta _ e.obj k h)

-- What a read of a well-formed store returns lies under its kind and name.
pub get-IsFiled :
    (k : Kind) (name : String) (m : Memory) (o : Object) (rev : ℕ)
    → IsBounded m
    → get k name m ≡ ok (o, rev)
    → (kind_of o ≡ some k) × ((meta_of o).name ≡ name)
get-IsFiled k name m o rev b h = elim (Bool-cases (valid_name name)) [
  | inr v ↦ absurd (cc (sym (get_invalid k name m v) ∙ h))
  | inl v ↦ elim (Option-cases (lookup name (m.objs k))) [
    | inl e ↦ absurd (cc (sym (get-none k name m v e) ∙ h))
    | inr (e, q) ↦
        let (fk, fn) = b.filed k name e q in
        let read_back : read_entry e ≡ o = cc (sym (get_found k name m e v q) ∙ h) in
        (
          sym (ap kind_of read_back) ∙ kind_of-read_entry e ∙ fk,
          sym (ap (λ (y : Object). (meta_of y).name) read_back) ∙ name-read_entry e k fk ∙ fn,
        )
  ]
]

-- A create succeeds only where nothing is stored.
put_as-create :
    (k : Kind) (now : ℕ) (o : Object) (n : ℕ) (m m' : Memory)
    → put_as k now o (pos 0) m ≡ (ok n, m')
    → lookup (meta_of o).name (m.objs k) ≡ none
unfolding put_as
put_as-create k now o n m m' h = elim (Option-cases (lookup (meta_of o).name (m.objs k))) [
  | inl q ↦ q
  | inr (e, q) ↦ ground arith
]

module _ {A : Type 0} (now : ℕ) (others : ℕ → Memory → Memory) (k : Kind) (name : String)
    (decide : Result (Object × ℕ) → Intent A) (pinned : IsPinned k name decide) where
  -- A write that succeeds is decided on the store that it is applied to.
  still_decides :
      (m s m' : Memory) (a : A) (new : Object) (x : ℤ) (lost : Error) (r : ℕ)
      → IsBounded m
      → Reach m s
      → decide (get k name m) ≡ write a new x lost
      → put now new x s ≡ (ok r, m')
      → get k name s ≡ get k name m
  still_decides m s m' a new x lost r b reach d p = elim (Bool-cases (valid_name name)) [
    | inr v ↦ get_invalid k name s v ∙ sym (get_invalid k name m v)
    | inl v ↦ elim (Option-cases (lookup name (m.objs k))) [
      | inl e ↦
          let (en, ex, ek, nm) =
            pinned.on_error not_found a new x lost (sym (ap decide (get-none k name m v e)) ∙ d) in
          let call : put_as k now new (pos 0) s ≡ (ok r, m') =
            subst (λ (y : ℤ). put_as k now new y s ≡ (ok r, m')) ex
              (sym (put-put_as k now new x s ek) ∙ p) in
          let free : lookup name (s.objs k) ≡ none =
            subst (λ (y : String). lookup y (s.objs k) ≡ none) nm
              (put_as-create k now new r s m' call) in
          get-none k name s v free ∙ sym (get-none k name m v e)
      | inr (e, h) ↦
          let (fk, fn) = b.filed k name e h in
          let (ex, ek, nm) =
            pinned.on_object (read_entry e) e.rev a new x lost (kind_of-read_entry e ∙ fk)
              (name-read_entry e k fk ∙ fn) (sym (ap decide (get_found k name m e v h)) ∙ d) in
          let call : put now new (pos e.rev) s ≡ (ok r, m') =
            subst (λ (y : ℤ). put now new y s ≡ (ok r, m')) ex p in
          let held : lookup name (s.objs k) ≡ some e =
            subst (λ (y : String). lookup y (s.objs k) ≡ some e) nm
              (stale_put k now new e r m s m' b ek
                (subst (λ (y : String). lookup y (m.objs k) ≡ some e) (sym nm) h)
                (b.positive k name e h) reach call) in
          get_found k name s e v held ∙ sym (get_found k name m e v h)
    ]
  ]

  settle_done :
      (a c : A) (lost : Error) (p : Result ℕ × Memory)
      → (settle a lost p).0 ≡ over (done c)
      → (a ≡ c) × ((r : ℕ) × (p ≡ (ok r, (settle a lost p).1)))
  unfolding settle
  settle_done a c lost (ok r, m) h = (cc, (r, refl))
  settle_done a c lost (err e, m) h = elim (Bool-cases (is_error e lost)) [
    | inl b ↦ absurd (ground (arith, b))
    | inr b ↦ absurd (ground (arith, b))
  ]

  pair_eq :
      {t : Turn A × Memory} {c : Attempt A} {a : A} {m' : Memory}
      → t.0 ≡ over c
      → c ≡ done a
      → t.1 ≡ m'
      → t ≡ (over (done a), m')
  pair_eq e f g = cc

  -- One turn: it is over at one instant, or nothing but the calls of other writers happened.
  turn-IsAtomic :
      (i : ℕ) (m m' : Memory) (a : A)
      → IsBounded m
      → ((j : ℕ) (n : Memory) → Reach n (others j n))
      → cas_turn now others k name decide i m ≡ (over (done a), m')
      → (s : Memory) × ((tries : ℕ) → IsMoment now others k name decide (suc tries) i m s)
        × IsAtomic now k name decide a s m'
  unfolding cas_turn cas_write
  turn-IsAtomic i m m' a b reach h =
      let n = others i m in
      let rn : Reach m n = reach i m in
      elim (Intent-cases (decide (get k name n))) [
        | inl (c, d) ↦
            let both = rw d at h in
            (
              n,
              λ tries. at_read tries i m,
              answered (cc (d, both)) (sym (ap (λ (t : Turn A × Memory). t.1) both)),
            )
        | inr (c, new, x, lost, d) ↦
            let both = rw d at h in
            let s = others (suc i) n in
            let rs : Reach n s = reach (suc i) n in
            let (ec, (r, ep)) =
              settle_done c a lost (put now new x s) (ap (λ (t : Turn A × Memory). t.0) both) in
            let p : put now new x s ≡ (ok r, m') =
              ep ∙ ap (λ (y : Memory). (ok r, y)) (ap (λ (t : Turn A × Memory). t.1) both) in
            let bn = Reach-IsBounded rn b in
            let same_read = still_decides n s m' c new x lost r bn rs d p in
            (
              s,
              λ tries. at_write tries i m c new x lost d,
              written new x lost r (ap decide same_read ∙ d ∙ ap (λ (y : A). write y new x lost) ec)
                  p,
            )
      ]

  -- A call of the server that is answered acts at one instant: one of the states of the store that the
  -- loop reads or writes in its turns is such that the decision, taken on a read of that very state,
  -- is the answer given, and the store that the call leaves is that state, or what the write that the
  -- decision asks for makes of it. For all calls of other writers before each of its store calls, if
  -- the decision writes only what it read, at the revision that it read, or creates what is absent,
  -- and the store was well-formed.
  pub cas_loop-IsAtomic :
      (tries i : ℕ) (m m' : Memory) (a : A)
      → IsBounded m
      → ((j : ℕ) (n : Memory) → Reach n (others j n))
      → cas_loop now others tries k name decide i m ≡ (done a, m')
      → (s : Memory) × IsMoment now others k name decide tries i m s
        × IsAtomic now k name decide a s m'
  unfolding cas_loop
  cas_loop-IsAtomic zero i m m' a b reach h = absurd (cc h)
  cas_loop-IsAtomic (suc tries) i m m' a b reach h =
      let t = cas_turn now others k name decide i m in
      let tr : Reach m t.1 = turn-Reach now others k name decide i m reach in
      elim (Turn-cases t.0) [
        | inl (c, e) ↦
            let both : (c, t.1) ≡ (done a, m') = rw (e, cas_loop) at h in
            let (s, moment, at) = turn-IsAtomic i m m' a b reach (
              pair_eq e (ap (λ (p : Attempt A × Memory). p.0) both)
                (ap (λ (p : Attempt A × Memory). p.1) both)) in
            (s, moment tries, at)
        | inr e ↦
            let later = rw (e, cas_loop) at h in
            let (s, rs, at) =
              cas_loop-IsAtomic tries (i + 2) t.1 m' a (Reach-IsBounded tr b) reach later in
            (s, at_retry tries i m s e rs, at)
      ]
