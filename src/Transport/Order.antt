-- ===== src/Transport/Order.antt =====
-- Every callback is answered once, in the order in which the commands were sent.
use esphome_alpha_hwr.Base.{
  ℕ, zero, suc, ◌≤◌, ◌≡◌, refl, sym, ap, ◌∙◌, Bool, false, List, [], ◌∷◌, ◌++◌, Option, none, some,
  arith, length, take, take-append, take_all, append-nil, append_assoc,
}
use esphome_alpha_hwr.Transport.State.{
  Command, Event, settled, wrote, handled, delivered, Transport, React,
}
use esphome_alpha_hwr.Transport.Dispatch.{finish}
use esphome_alpha_hwr.Transport.Loop.{fail}
use esphome_alpha_hwr.Transport.Queue.{
  Request, command, send_command, notify, complete_front_command, fail_front_command,
}

-- The callbacks that were called, oldest first.
abbrev pub answered : List Event → List ℕ
answered [] = []
answered (settled id verdict bytes ∷ log) = answered log ++ (id ∷ [])
answered (wrote chunk ∷ log) = answered log
answered (handled id payload ∷ log) = answered log
answered (delivered frame ∷ log) = answered log

-- The callbacks that wait in the queue.
abbrev pub callback_ids : Option ℕ → List ℕ
callback_ids none = []
callback_ids (some id) = id ∷ []

abbrev pub queued : List Command → List ℕ
queued [] = []
queued (cmd ∷ rest) = callback_ids cmd.callback ++ queued rest

abbrev pub account : Transport → List ℕ
account t = answered t.log ++ queued t.queue

-- The account of `t` is the beginning of that of `u`.
pub record Keeps (t u : Transport) : Type 0 where
  pub kept : take (length (account t)) (account u) ≡ account t

pub queued-append : (xs ys : List Command) → queued (xs ++ ys) ≡ queued xs ++ queued ys
queued-append [] ys = refl
queued-append (x ∷ xs) ys =
    ap (◌++◌ (callback_ids x.callback)) (queued-append xs ys)
    ∙ sym (append_assoc (callback_ids x.callback) (queued xs) (queued ys))

keeps_more : (xs ys more : List ℕ) → ys ≡ xs ++ more → take (length xs) ys ≡ xs
keeps_more xs ys more e = rw e (take-append xs more)

pub Keeps-refl : (t : Transport) → Keeps t t
Keeps-refl t = record { kept = take_all (account t) }

take-take : {A : Type 0} (n m : ℕ) (xs : List A) → n ≤ m → take n (take m xs) ≡ take n xs
take-take zero m xs h = refl
take-take (suc n) zero xs h = absurd (omega arith)
take-take (suc n) (suc m) [] h = refl
take-take (suc n) (suc m) (x ∷ xs) h = ap (◌∷◌ x) (take-take n m xs (omega arith))

prefix_shorter : (xs ys : List ℕ) → take (length xs) ys ≡ xs → length xs ≤ length ys
prefix_shorter [] ys e = omega arith
prefix_shorter (x ∷ xs) [] e = cc
prefix_shorter (x ∷ xs) (y ∷ ys) e = omega (arith, prefix_shorter xs ys (cc))

pub Keeps-trans : (t u v : Transport) → Keeps t u → Keeps u v → Keeps t v
Keeps-trans t u v p q = record {
  kept =
      sym (
        take-take (length (account t)) (length (account u)) (account v)
          (prefix_shorter (account t) (account u) p.kept))
      ∙ ap (take (length (account t))) q.kept
      ∙ p.kept;
}

-- What stays in the account when neither the answers nor the waiting callbacks change.
pub Keeps-same : (t u : Transport) → account u ≡ account t → Keeps t u
Keeps-same t u e = record { kept = rw e (take_all (account t)) }

-- A sent command is added at the end.
pub account-send_command :
    (packet : List ℕ) (r : Request) (t : Transport)
    → account (send_command packet r t) ≡ account t ++ callback_ids r.callback
unfolding send_command command
account-send_command packet r t =
    ap (◌++◌ (answered t.log)) (queued-append t.queue _ ∙ ap (◌++◌ (queued t.queue)) (append-nil _))
    ∙ sym (append_assoc (answered t.log) (queued t.queue) (callback_ids r.callback))

module _ (react : React) where
  abbrev news : Option ℕ → Bool → Option (List ℕ) → List ℕ
  news none verdict bytes = []
  news (some id) verdict bytes = queued (react id verdict bytes)

  notify-account :
      (cb : Option ℕ) (rest : List Command) (verdict : Bool) (bytes : Option (List ℕ))
      (t : Transport)
      → account (notify react cb verdict bytes (record t { queue = rest }))
        ≡ (answered t.log ++ (callback_ids cb ++ queued rest)) ++ news cb verdict bytes
  unfolding notify
  notify-account none rest verdict bytes t = sym (append-nil _)
  notify-account (some id) rest verdict bytes t = simp (append_assoc, queued-append)

  complete-Keeps :
      (q : List Command) (verdict : Bool) (bytes : Option (List ℕ)) (t : Transport)
      → Keeps
          (record t { queue = q })
          (complete_front_command react verdict bytes (record t { queue = q }))
  unfolding complete_front_command
  complete-Keeps [] verdict bytes t = Keeps-refl (record t { queue = [] })
  complete-Keeps (cmd ∷ rest) verdict bytes t = record {
    kept =
        keeps_more _ _ (news cmd.callback verdict bytes)
          (notify-account cmd.callback rest verdict bytes t);
  }

  pub complete_front_command-Keeps :
      (verdict : Bool) (bytes : Option (List ℕ)) (t : Transport)
      → Keeps t (complete_front_command react verdict bytes t)
  complete_front_command-Keeps verdict bytes t = complete-Keeps t.queue verdict bytes t

  -- A change of anything but the log and the queue, before or after, does not matter.
  pub finish-Keeps :
      (verdict : Bool) (bytes : Option (List ℕ)) (t u : Transport)
      → account u ≡ account t
      → Keeps t (finish react verdict bytes u)
  unfolding finish
  finish-Keeps verdict bytes t u e = record {
    kept =
        (Keeps-trans t u (complete_front_command react verdict bytes u) (Keeps-same t u e)
          (complete_front_command-Keeps verdict bytes u)).kept;
  }

  pub fail-Keeps : (t u : Transport) → account u ≡ account t → Keeps t (fail react u)
  unfolding fail fail_front_command
  fail-Keeps t u e = record {
    kept =
        (Keeps-trans t u (complete_front_command react false none u) (Keeps-same t u e)
          (complete_front_command-Keeps false none u)).kept;
  }
