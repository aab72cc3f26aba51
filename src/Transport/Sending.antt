-- ===== src/Transport/Sending.antt =====
-- A command is sent in full, in chunks, by enough ticks of `loop`.
use esphome_alpha_hwr.Base.{
  ℕ, zero, suc, ◌+◌, ◌*◌, ◌≤◌, ◌<◌, ◌≡◌, refl, sym, ap, ◌∙◌, true, List, [], ◌∷◌, ◌++◌, arith,
  length, length-drop, append_assoc, take, drop, take_all, sub_u32,
}
use esphome_alpha_hwr.Transport.State.{
  Command, sending_chunks, awaiting_response, Event, settled, wrote, handled, delivered, Transport,
  React,
}
use esphome_alpha_hwr.Transport.Loop.{has_callback, chunk_of, chunk_sent, send_chunk, step, loop}

-- The bytes that were given to the BLE write, oldest first.
abbrev pub written : List Event → List ℕ
written [] = []
written (wrote chunk ∷ log) = written log ++ chunk
written (settled id verdict bytes ∷ log) = written log
written (handled id payload ∷ log) = written log
written (delivered frame ∷ log) = written log

-- Ticks at the times given, with a peer that takes every chunk.
abbrev pub ticks : React → List ℕ → Transport → Transport
ticks react [] t = t
ticks react (now ∷ more) t = ticks react more (loop react now true t)

-- Each tick comes when the pacing allows the next chunk.
abbrev pub Paced : ℕ → ℕ → List ℕ → Type 0
Paced pacing last [] = Unit
Paced pacing last (now ∷ more) = (pacing ≤ sub_u32 now last) × Paced pacing now more

abbrev pub last_of : ℕ → List ℕ → ℕ
last_of now [] = now
last_of now (later ∷ more) = last_of later more

-- The transport with `cmd` at the head of its queue and `sent` bytes of it sent.
abbrev pub sending : ℕ → Command → List Command → Transport → Transport
sending sent cmd rest t = record t {
  state = sending_chunks;
  queue = record cmd { bytes_sent = sent } ∷ rest;
}

-- `cmd` as it awaits its response.
abbrev pub out_at : ℕ → Command → Command
out_at now cmd = record cmd {
  bytes_sent = length cmd.packet;
  timestamp_ms = now;
  waiting_for_response = true;
}

take-drop : {A : Type 0} (n : ℕ) (xs : List A) → take n xs ++ drop n xs ≡ xs
take-drop zero xs = refl
take-drop (suc n) [] = refl
take-drop (suc n) (x ∷ xs) = ap (◌∷◌ x) (take-drop n xs)

drop_nil : {A : Type 0} (n : ℕ) → drop {A = A} n [] ≡ []
drop_nil zero = refl
drop_nil (suc n) = refl

drop-drop : {A : Type 0} (n m k : ℕ) (xs : List A) → k ≡ n + m → drop m (drop n xs) ≡ drop k xs
drop-drop zero m k xs e = ap (λ i. drop i xs) {x = m} {y = k} (omega arith)
drop-drop (suc n) m k [] e = drop_nil m ∙ sym (drop_nil k)
drop-drop (suc n) m zero (x ∷ xs) e = absurd (omega arith)
drop-drop (suc n) m (suc k) (x ∷ xs) e = drop-drop n m k xs (omega arith)

-- A chunk, with what is left behind it.
chunk-rest :
    (sent : ℕ) (packet : List ℕ)
    → take 20 (drop sent packet) ++ drop (sent + 20) packet ≡ drop sent packet
chunk-rest sent packet =
    ap (◌++◌ (take 20 (drop sent packet))) (sym (drop-drop sent 20 (sent + 20) packet refl))
    ∙ take-drop 20 (drop sent packet)

module _ (react : React) (cmd : Command) (rest : List Command)
    (owned : has_callback cmd ≡ true) where
  full_chunk :
      (sent : ℕ)
      → sent + 20 < length cmd.packet
      → chunk_of (record cmd { bytes_sent = sent }) ≡ take 20 (drop sent cmd.packet)
  unfolding chunk_of
  full_chunk sent h = ap (λ n. take n (drop sent cmd.packet)) {y = 20} (omega arith)

  last_chunk :
      (sent : ℕ)
      → sent < length cmd.packet
      → length cmd.packet ≤ sent + 20
      → chunk_of (record cmd { bytes_sent = sent }) ≡ drop sent cmd.packet
  unfolding chunk_of
  last_chunk sent h last =
      ap (λ n. take n (drop sent cmd.packet)) (omega (arith, length-drop sent cmd.packet))
      ∙ take_all (drop sent cmd.packet)

  -- One tick, while more than a chunk is left.
  loop_full :
      (now sent : ℕ) (t : Transport)
      → t.has_write_callback ≡ true
      → t.send_pacing_ms ≤ sub_u32 now t.last_send_time
      → sent + 20 < length cmd.packet
      → loop react now true (sending sent cmd rest t)
        ≡ sending (sent + 20) cmd rest (record t {
          log = wrote (take 20 (drop sent cmd.packet)) ∷ t.log;
          last_send_time = now;
        })
  unfolding loop step send_chunk chunk_sent
  loop_full now sent t w p h = ground (arith, full_chunk sent h)

  loop_last :
      (now sent : ℕ) (t : Transport)
      → t.has_write_callback ≡ true
      → t.send_pacing_ms ≤ sub_u32 now t.last_send_time
      → sent < length cmd.packet
      → length cmd.packet ≤ sent + 20
      → loop react now true (sending sent cmd rest t) ≡ record t {
        state = awaiting_response;
        queue = out_at now cmd ∷ rest;
        log = wrote (drop sent cmd.packet) ∷ t.log;
        last_send_time = now;
      }
  unfolding loop step send_chunk chunk_sent
  loop_last now sent t w p h last = ground (arith, owned, last_chunk sent h last)

  -- A command whose sending began is sent in full by just as many paced ticks as chunks are left, with
  -- a peer that takes every chunk: the bytes written are the rest of the packet, in order, and the
  -- command then awaits its response from the last tick on.
  pub ticks-written :
      (now : ℕ) (more : List ℕ) (sent : ℕ) (t : Transport)
      → t.has_write_callback ≡ true
      → Paced t.send_pacing_ms t.last_send_time (now ∷ more)
      → sent + 20 * length more < length cmd.packet
      → length cmd.packet ≤ sent + 20 * length more + 20
      → (written (ticks react (now ∷ more) (sending sent cmd rest t)).log
          ≡ written t.log ++ drop sent cmd.packet)
        × ((ticks react (now ∷ more) (sending sent cmd rest t)).state ≡ awaiting_response)
        × ((ticks react (now ∷ more) (sending sent cmd rest t)).queue
            ≡ out_at (last_of now more) cmd ∷ rest)
  ticks-written now [] sent t w p lo hi =
      let e = loop_last now sent t w p.0 (omega arith) (omega arith) in
      (ap (λ u. written u.log) e, ap (λ u. u.state) e, ap (λ u. u.queue) e)
  ticks-written now (later ∷ more) sent t w p lo hi =
      let u : Transport = record t {
        log = wrote (take 20 (drop sent cmd.packet)) ∷ t.log;
        last_send_time = now;
      } in
      let e = ap (ticks react (later ∷ more)) (loop_full now sent t w p.0 (omega arith)) in
      let ih = ticks-written later more (sent + 20) u w p.1 (omega arith) (omega arith) in
      (
        ap (λ v. written v.log) e
            ∙ ih.0
            ∙ append_assoc (written t.log) (take 20 (drop sent cmd.packet))
                (drop (sent + 20) cmd.packet)
            ∙ ap (◌++◌ (written t.log)) (chunk-rest sent cmd.packet),
        ap (λ v. v.state) e ∙ ih.1,
        ap (λ v. v.queue) e ∙ ih.2,
      )
