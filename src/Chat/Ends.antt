-- ===== src/Chat/Ends.antt =====
-- Every interleaving of the two threads: how the chat ends.
use simple_rfcomm.Prelude.{
  ℕ, ◌≡◌, refl, ◌∙◌, inl, inr, Option, none, some, false, List, [], ◌∷◌, Bool-cases, arith,
}
use simple_rfcomm.Prelude.Int.{ℤ, minus_one, is_minus_one, is_negative, is_positive}
use simple_rfcomm.Command.{same_text}
use simple_rfcomm.Os.Traffic.{if_valid}
use simple_rfcomm.Chat.{
  ReaderPlace, reader_loop, reader_test, reader_recv, reader_result, reader_end, SenderPlace,
  sender_loop, sender_input, sender_send, sender_stop, sender_close, sender_reset, sender_join,
  sender_end, ChatCall, close_call, Chat, SenderInput, quit_line, start, reader_step, take_line,
  join_step, sender_step,
}

-- The states that the threads can reach, in any interleaving and whatever the world answers.
pub data Reachable (fd : ℤ) : Chat → Type 0 where
  at_start : Reachable fd (start fd)
  by_reader :
      (s : Chat) (answer : ℤ) → Reachable fd s → Reachable fd (reader_step s.reader answer s)
  by_sender :
      (s : Chat) (input : SenderInput)
      → Reachable fd s
      → Reachable fd (sender_step s.sender input s)

abbrev pub closes : List ChatCall → List ℤ
closes [] = []
closes (close_call fd ∷ cs) = fd ∷ closes cs
closes (_ ∷ cs) = closes cs

-- What holds while the main thread is at a place.
abbrev pub HoldsAt : ℤ → Chat → SenderPlace → Type 0
HoldsAt fd s sender_close = (s.running ≡ false) × (s.handle ≡ fd) × (closes s.calls ≡ [])
HoldsAt fd s sender_reset = (s.running ≡ false) × (s.handle ≡ fd) × (closes s.calls ≡ if_valid fd)
HoldsAt fd s sender_join =
    (s.running ≡ false) × (s.handle ≡ minus_one) × (closes s.calls ≡ if_valid fd)
HoldsAt fd s sender_end =
    (s.running ≡ false)
    × (s.handle ≡ minus_one)
    × (closes s.calls ≡ if_valid fd)
    × (s.reader ≡ reader_end)
HoldsAt fd s _ = (s.handle ≡ fd) × (closes s.calls ≡ [])

-- A step that leaves the handle, the closes, a stopped flag and an ended reader as they are.
HoldsAt-same :
    (fd : ℤ) (s t : Chat) (sender : SenderPlace)
    → t.handle ≡ s.handle
    → closes t.calls ≡ closes s.calls
    → (s.running ≡ false → t.running ≡ false)
    → (s.reader ≡ reader_end → t.reader ≡ reader_end)
    → HoldsAt fd s sender
    → HoldsAt fd t sender
HoldsAt-same fd s t sender_loop e c r d (h, n) = (e ∙ h, c ∙ n)
HoldsAt-same fd s t sender_input e c r d (h, n) = (e ∙ h, c ∙ n)
HoldsAt-same fd s t (sender_send line) e c r d (h, n) = (e ∙ h, c ∙ n)
HoldsAt-same fd s t sender_stop e c r d (h, n) = (e ∙ h, c ∙ n)
HoldsAt-same fd s t sender_close e c r d (f, h, n) = (r f, e ∙ h, c ∙ n)
HoldsAt-same fd s t sender_reset e c r d (f, h, n) = (r f, e ∙ h, c ∙ n)
HoldsAt-same fd s t sender_join e c r d (f, h, n) = (r f, e ∙ h, c ∙ n)
HoldsAt-same fd s t sender_end e c r d (f, h, n, x) = (r f, e ∙ h, c ∙ n, d x)

reader_step-HoldsAt :
    (fd : ℤ) (s : Chat) (place : ReaderPlace) (answer : ℤ)
    → s.reader ≡ place
    → HoldsAt fd s s.sender
    → let t = reader_step place answer s in HoldsAt fd t t.sender
unfolding reader_step
reader_step-HoldsAt fd s reader_loop answer e h =
    HoldsAt-same fd s (reader_step reader_loop answer s) s.sender refl refl (λ f. f)
      (λ x. absurd (cc (e, x))) h
reader_step-HoldsAt fd s reader_test answer e h =
    HoldsAt-same fd s (reader_step reader_test answer s) s.sender refl refl (λ f. f)
      (λ x. absurd (cc (e, x))) h
reader_step-HoldsAt fd s reader_recv answer e h =
    HoldsAt-same fd s (reader_step reader_recv answer s) s.sender refl refl (λ f. f)
      (λ x. absurd (cc (e, x))) h
reader_step-HoldsAt fd s (reader_result r) answer e h = elim (Bool-cases (is_positive r)) [
  | inl more ↦ rw more (
      HoldsAt-same fd s (record s { reader = reader_loop }) s.sender refl refl (λ f. f)
        (λ x. absurd (cc (e, x))) h)
  | inr over ↦ rw over (
      HoldsAt-same fd s (record s { reader = reader_end; running = false }) s.sender refl refl
        (λ f. refl) (λ x. refl) h)
]
reader_step-HoldsAt fd s reader_end answer e h = h

take_line-HoldsAt :
    (fd : ℤ) (o : Option (List ℕ)) (s : Chat)
    → HoldsAt fd s sender_input
    → let t = take_line o s in HoldsAt fd t t.sender
unfolding take_line
take_line-HoldsAt fd none s h = h
take_line-HoldsAt fd (some line) s h = elim (Bool-cases (same_text line quit_line)) [
  | inl quit ↦ rw quit h
  | inr message ↦ rw message h
]

join_step-HoldsAt :
    (fd : ℤ) (place : ReaderPlace) (s : Chat)
    → s.reader ≡ place
    → s.sender ≡ sender_join
    → HoldsAt fd s sender_join
    → let t = join_step place s in HoldsAt fd t t.sender
unfolding join_step
join_step-HoldsAt fd reader_end s e e' (f, h, n) = (f, h, n, e)
join_step-HoldsAt fd reader_loop s e e' h = rw e' h
join_step-HoldsAt fd reader_test s e e' h = rw e' h
join_step-HoldsAt fd reader_recv s e e' h = rw e' h
join_step-HoldsAt fd (reader_result r) s e e' h = rw e' h

sender_step-HoldsAt :
    (fd : ℤ) (s : Chat) (place : SenderPlace) (input : SenderInput)
    → is_minus_one fd ≡ false
    → s.sender ≡ place
    → HoldsAt fd s place
    → let t = sender_step place input s in HoldsAt fd t t.sender
unfolding sender_step
sender_step-HoldsAt fd s sender_loop input valid e h = elim (Bool-cases s.running) [
  | inl on ↦ rw on h
  | inr off ↦ rw off h
]
sender_step-HoldsAt fd s sender_input input valid e h = take_line-HoldsAt fd input.line s h
sender_step-HoldsAt fd s (sender_send line) input valid e h = elim (Bool-cases input.sent) [
  | inl ok ↦ rw ok h
  | inr failed ↦ rw failed h
]
sender_step-HoldsAt fd s sender_stop input valid e (h, n) = (refl, h, n)
sender_step-HoldsAt fd s sender_close input valid e (f, h, n) =
    rw (h, valid)
      (
        f,
        refl,
        elim (Bool-cases (is_negative fd)) [
          | inl negative ↦ rw negative n
          | inr open_now ↦ rw (open_now, n) refl
        ],
      )
sender_step-HoldsAt fd s sender_reset input valid e (f, h, n) = (f, refl, n)
sender_step-HoldsAt fd s sender_join input valid e h = join_step-HoldsAt fd s.reader s refl e h
sender_step-HoldsAt fd s sender_end input valid e h = rw e h

-- Every interleaving of the two threads of a chat on a handle that is not -1, whatever the console and
-- the system answer: a descriptor, which is not negative, is closed once at most, and only where the
-- main thread has left its loop; when the main thread has joined, it has been closed once, the handle
-- is invalid, `running` is false and the reader has ended. A handle below -1 is not closed.
pub chat_holds :
    (fd : ℤ) (s : Chat) → is_minus_one fd ≡ false → Reachable fd s → HoldsAt fd s s.sender
unfolding start
chat_holds fd _ valid at_start = (refl, refl)
chat_holds fd _ valid (by_reader s answer r) =
    reader_step-HoldsAt fd s s.reader answer refl (chat_holds fd s valid r)
chat_holds fd _ valid (by_sender s input r) =
    sender_step-HoldsAt fd s s.sender input valid refl (chat_holds fd s valid r)

-- Once `running` is false, four steps of the reader end it, whatever recv(2) answers: the main
-- thread's `join` waits for nothing else than a recv(2) that does not return.
reader_ends :
    (s : Chat) (a b c d : ℤ)
    → s.running ≡ false
    → let s' = reader_step s.reader a s in
      let s'' = reader_step s'.reader b s' in
      let s''' = reader_step s''.reader c s'' in
      (reader_step s'''.reader d s''').reader ≡ reader_end
unfolding reader_step
reader_ends s a b c d h = ground (arith, h)
