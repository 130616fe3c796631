-- ===== src/Console/Feeds.antt =====
-- internal/serialconsole/console.go: what a subscription is sent, over any run.
use unwedge.Base.{
  ℕ, zero, suc, ◌==◌, ◌≡◌, refl, sym, ap, subst, inl, inr, Bool-cases, ◌∙◌, Bytes, true, false,
  some, List, [], ◌∷◌, ◌++◌, append_assoc, append-nil, length, get_elem?, map, if◌then◌else◌, arith,
  not,
}
use unwedge.Base.Int.{ℤ, is_positive}
use unwedge.Ring.{snapshot}
use unwedge.Ring.History.{joined}
use unwedge.Console.{
  Feed, Console, ConsoleOp, publish_op, close_op, reset_op, subscribe_op, close_subscription_op,
  receive_op, deliver, end_feed, close_feed, take_feed, on_feed, publish, close_with_err,
  console_reset, subscribe, close_subscription, receive, console_step, console_run, replayed,
}

-- The bytes that the operations publish, in order.
abbrev pub published : List ConsoleOp → Bytes
published [] = []
published (publish_op p ∷ os) = p ++ published os
published (close_op e ∷ os) = published os
published (reset_op ∷ os) = published os
published (subscribe_op n ∷ os) = published os
published (close_subscription_op i ∷ os) = published os
published (receive_op i ∷ os) = published os

nil_right : (b : Bytes) → b ++ [] ≡ b
nil_right b = rw append-nil refl

joined-snoc : (ps : List Bytes) (p : Bytes) → joined (ps ++ p ∷ []) ≡ joined ps ++ p
joined-snoc [] p = nil_right p
joined-snoc (q ∷ ps) p = ap (λ b. q ++ b) (joined-snoc ps p) ∙ sym (append_assoc q (joined ps) p)

-- A feed whose channel is open is in the map, and no other is.
abbrev pub IsSound : Feed → Type 0
IsSound f = f.registered ≡ not f.closed

-- If the feed is open after the change it was open before, and got the bytes `p`.
abbrev Gets : Bytes → Feed → Feed → Type 0
Gets p f f' =
    IsSound f' × (f'.closed ≡ false → (f.closed ≡ false) × (joined f'.sent ≡ joined f.sent ++ p))

get_elem?-map :
    (g : Feed → Feed) (fs : List Feed) (i : ℕ) (f : Feed)
    → get_elem? fs i ≡ some f
    → get_elem? (map g fs) i ≡ some (g f)
get_elem?-map g [] i f h = absurd (cc h)
get_elem?-map g (x ∷ fs) zero f h = cc h
get_elem?-map g (x ∷ fs) (suc i) f h = get_elem?-map g fs i f h

get_elem?-snoc :
    (fs : List Feed) (x : Feed) (i : ℕ) (f : Feed)
    → get_elem? fs i ≡ some f
    → get_elem? (fs ++ x ∷ []) i ≡ some f
get_elem?-snoc [] x i f h = absurd (cc h)
get_elem?-snoc (y ∷ fs) x zero f h = h
get_elem?-snoc (y ∷ fs) x (suc i) f h = get_elem?-snoc fs x i f h

get_elem?-on_feed :
    (g : Feed → Feed) (fs : List Feed) (j i : ℕ) (f : Feed)
    → get_elem? fs i ≡ some f
    → get_elem? (on_feed g j fs) i ≡ some (if i == j then g f else f)
unfolding on_feed
get_elem?-on_feed g [] j i f h = absurd (cc h)
get_elem?-on_feed g (x ∷ fs) zero zero f h = cc h
get_elem?-on_feed g (x ∷ fs) (suc j) zero f h = ground (arith, h)
get_elem?-on_feed g (x ∷ fs) zero (suc i) f h = ground (arith, h)
get_elem?-on_feed g (x ∷ fs) (suc j) (suc i) f h = ground (arith, get_elem?-on_feed g fs j i f h)

deliver-Gets : (capacity : ℕ) (p : Bytes) (f : Feed) → IsSound f → Gets p f (deliver capacity p f)
unfolding deliver
deliver-Gets capacity p f s = ground (arith, joined-snoc f.sent p, s)

end_feed-Gets : (f : Feed) → IsSound f → Gets [] f (end_feed f)
unfolding end_feed
end_feed-Gets f s = ground (arith, nil_right (joined f.sent), s)

close_feed-Gets : (f : Feed) → IsSound f → Gets [] f (close_feed f)
unfolding close_feed
close_feed-Gets f s = ground (arith, nil_right (joined f.sent), s)

take_feed-Gets : (f : Feed) → IsSound f → Gets [] f (take_feed f)
unfolding take_feed
take_feed-Gets f s = ground (arith, nil_right (joined f.sent), s)

same-Gets : (f : Feed) → IsSound f → Gets [] f f
same-Gets f s = (s, (λ h. (h, sym (nil_right (joined f.sent)))))

-- What an operation does to one feed.
Evolves : ℕ → ConsoleOp → Console → ℕ → Feed → Type 0
Evolves capacity o c i f =
    (f' : Feed) × (get_elem? (console_step capacity o c).feeds i ≡ some f')
    × Gets (published (o ∷ [])) f f'

at_feed :
    (g : Feed → Feed) (c : Console) (j i : ℕ) (f : Feed)
    → get_elem? c.feeds i ≡ some f
    → IsSound f
    → Gets [] f (g f)
    → (f' : Feed) × (get_elem? (on_feed g j c.feeds) i ≡ some f') × Gets [] f f'
at_feed g c j i f h s step = (
  (if i == j then g f else f),
  get_elem?-on_feed g c.feeds j i f h,
  elim (i == j) as (λ b. Gets [] f (if b then g f else f)) [ true ↦ step | false ↦ same-Gets f s ],
)

console_step-Evolves :
    (capacity : ℕ) (o : ConsoleOp) (c : Console) (i : ℕ) (f : Feed)
    → get_elem? c.feeds i ≡ some f
    → IsSound f
    → Evolves capacity o c i f
unfolding Evolves console_step publish close_with_err console_reset subscribe close_subscription
    receive
console_step-Evolves capacity (publish_op p) c i f h s = (
  deliver capacity p f,
  get_elem?-map (deliver capacity p) c.feeds i f h,
  subst (λ b. Gets b f (deliver capacity p f)) (sym (nil_right p)) (deliver-Gets capacity p f s),
)
console_step-Evolves capacity (close_op e) c i f h s = elim (Bool-cases c.closed) [
  | inl ended ↦ (f, rw ended h, same-Gets f s)
  | inr live ↦ (end_feed f, rw live (get_elem?-map end_feed c.feeds i f h), end_feed-Gets f s)
]
console_step-Evolves capacity reset_op c i f h s = (f, h, same-Gets f s)
console_step-Evolves capacity (subscribe_op n) c i f h s =
    (f, get_elem?-snoc c.feeds _ i f h, same-Gets f s)
console_step-Evolves capacity (close_subscription_op j) c i f h s =
    at_feed close_feed c j i f h s (close_feed-Gets f s)
console_step-Evolves capacity (receive_op j) c i f h s =
    at_feed take_feed c j i f h s (take_feed-Gets f s)

published-cons :
    (o : ConsoleOp) (os : List ConsoleOp) → published (o ∷ os) ≡ published (o ∷ []) ++ published os
published-cons (publish_op p) os = ap (λ b. b ++ published os) (sym (nil_right p))
published-cons (close_op e) os = refl
published-cons reset_op os = refl
published-cons (subscribe_op n) os = refl
published-cons (close_subscription_op i) os = refl
published-cons (receive_op i) os = refl

-- A feed that is still open after a run was sent, since its start, exactly the bytes published in
-- the run, in order and without a gap.
pub console_run-feed :
    (capacity : ℕ) (os : List ConsoleOp) (c : Console) (i : ℕ) (f : Feed)
    → get_elem? c.feeds i ≡ some f
    → IsSound f
    → (f' : Feed) × (get_elem? (console_run capacity os c).feeds i ≡ some f')
      × Gets (published os) f f'
unfolding console_run Evolves
console_run-feed capacity [] c i f h s = (f, h, same-Gets f s)
console_run-feed capacity (o ∷ os) c i f h s =
    let (f1, at1, (sound1, gets1)) = console_step-Evolves capacity o c i f h s in
    let (f2, at2, (sound2, gets2)) =
      console_run-feed capacity os (console_step capacity o c) i f1 at1 sound1 in
    (
      f2,
      at2,
      (
        sound2,
        λ live.
            let (live1, sent2) = gets2 live in
            let (live0, sent1) = gets1 live1 in
            (
              live0,
              sent2
                  ∙ ap (λ b. b ++ published os) sent1
                  ∙ append_assoc (joined f.sent) (published (o ∷ [])) (published os)
                  ∙ ap (λ b. joined f.sent ++ b) (sym (published-cons o os)),
            ),
      ),
    )

get_elem?-last : (fs : List Feed) (f : Feed) → get_elem? (fs ++ f ∷ []) (length fs) ≡ some f
get_elem?-last [] f = refl
get_elem?-last (x ∷ fs) f = get_elem?-last fs f

joined-replayed : (b : Bytes) → joined (replayed b) ≡ b
unfolding replayed
joined-replayed [] = refl
joined-replayed (x ∷ b) = nil_right (x ∷ b)

-- A subscription that is still open has been sent the scrollback that it asked for and then exactly
-- what was published since, with no gap and nothing twice.
pub subscribe_no_gap :
    (capacity : ℕ) (n : ℤ) (c : Console) (os : List ConsoleOp)
    → let (c1, id) = subscribe n c in
      (f : Feed) × (get_elem? (console_run capacity os c1).feeds id ≡ some f)
      × (f.closed ≡ false
          → joined f.sent ≡ (if is_positive n then (snapshot c.ring n).0 else []) ++ published os)
unfolding subscribe
subscribe_no_gap capacity n c os =
    let first : Feed = record {
      sent = if is_positive n then replayed (snapshot c.ring n).0 else [];
      taken = 0;
      closed = c.closed;
      registered = not c.closed;
    } in
    let (f, at, (sound, gets)) =
      console_run-feed capacity os (subscribe n c).0 (length c.feeds) first
        (get_elem?-last c.feeds first) refl in
    (
      f,
      at,
      (λ live.
          (gets live).1
          ∙ ap (λ b. b ++ published os)
              (elim (is_positive n)
                as (λ b.
                  joined (if b then replayed (snapshot c.ring n).0 else [])
                  ≡ (if b then (snapshot c.ring n).0 else [])) [
                    | true ↦ joined-replayed (snapshot c.ring n).0
                    | false ↦ refl
                  ])),
    )
