-- ===== src/Xgin/ResponseWriter/Header.antt =====
-- In what order the writer of xgin/response_writer.go sends, and what it counts.
use srcrd.Prelude.{
  ℕ, ◌+◌, ◌≡◌, refl, sym, ap, ◌∙◌, Option, none, some, List, [], ◌∷◌, ◌++◌, append_assoc,
  append-nil, ap₂, ltb, if◌then◌else◌, arith,
}
use srcrd.Xgin.ResponseWriter.{
  Sent, header, body, hijacked, flushed, ResponseWriter, default_status, reset, add_size,
  write_header, write_header_now, write, hijack, flush,
}

-- A call of a handler on the writer.
pub data Op : Type 0 where
  set_status : ℕ → Op
  send : List ℕ → Op
  send_header flush_all take_over : Op

module _ (answer : List Sent → List ℕ → ℕ × Option ℕ) where
  pub perform : Op → ResponseWriter → ResponseWriter
  perform (set_status code) w = write_header code w
  perform (send p) w = (write answer p w).1
  perform send_header w = write_header_now w
  perform flush_all w = flush w
  perform take_over w = hijack w

  pub perform_all : List Op → ResponseWriter → ResponseWriter
  perform_all [] w = w
  perform_all (o ∷ os) w = perform_all os (perform o w)

-- The status that calls of WriteHeader leave.
pub status_after : ℕ → List Op → ℕ
status_after c [] = c
status_after c (set_status code ∷ os) = status_after (if ltb 0 code then code else c) os
status_after c (o ∷ os) = c

-- What goes to the writer below, once the header is out or the connection is taken over.
unfoldable pub tail_of : List Op → List Sent
tail_of [] = []
tail_of (set_status code ∷ os) = tail_of os
tail_of (send p ∷ os) = body p ∷ tail_of os
tail_of (send_header ∷ os) = tail_of os
tail_of (flush_all ∷ os) = flushed ∷ tail_of os
tail_of (take_over ∷ os) = hijacked ∷ tail_of os

-- Nothing until the first call that sends or takes over; then the header with the status of that moment,
-- once, and the rest in order. After a take-over that comes first there is no header.
unfoldable pub spec_sent : ℕ → List Op → List Sent
spec_sent c [] = []
spec_sent c (set_status code ∷ os) = spec_sent (if ltb 0 code then code else c) os
spec_sent c (send p ∷ os) = header c ∷ body p ∷ tail_of os
spec_sent c (send_header ∷ os) = header c ∷ tail_of os
spec_sent c (flush_all ∷ os) = header c ∷ flushed ∷ tail_of os
spec_sent c (take_over ∷ os) = hijacked ∷ tail_of os

write_header-size : (code : ℕ) (w : ResponseWriter) → (write_header code w).size ≡ w.size
unfolding write_header
write_header-size code w = ground arith

write_header-sent : (code : ℕ) (w : ResponseWriter) → (write_header code w).sent ≡ w.sent
unfolding write_header
write_header-sent code w = ground arith

write_header-status :
    (code : ℕ) (w : ResponseWriter)
    → (write_header code w).status ≡ (if ltb 0 code then code else w.status)
unfolding write_header
write_header-status code w = ground arith

-- What a call of the writer below adds, once the header is out and before.
record Adds (w w' : ResponseWriter) (more : List Sent) : Type 0 where
  count : ℕ
  size : w'.size ≡ some count
  sent : w'.sent ≡ w.sent ++ more

header_now-Adds :
    (w : ResponseWriter) → w.size ≡ none → Adds w (write_header_now w) (header w.status ∷ [])
unfolding write_header_now
header_now-Adds w e = record { count = 0; size = rw (e) refl; sent = rw (e) refl }

header_now_same : (w : ResponseWriter) (n : ℕ) → w.size ≡ some n → write_header_now w ≡ w
unfolding write_header_now
header_now_same w n e = rw (e) refl

flush-Adds :
    (w : ResponseWriter) → w.size ≡ none → Adds w (flush w) (header w.status ∷ flushed ∷ [])
unfolding flush
flush-Adds w e =
    let a = header_now-Adds w e in
    record {
      count = a.count;
      size = a.size;
      sent =
          ap (λ s. s ++ (flushed ∷ [])) a.sent
          ∙ append_assoc w.sent (header w.status ∷ []) (flushed ∷ []);
    }

flush-Adds-written :
    (w : ResponseWriter) (n : ℕ) → w.size ≡ some n → Adds w (flush w) (flushed ∷ [])
unfolding flush
flush-Adds-written w n e = record {
  count = n;
  size = ap (λ v. v.size) (header_now_same w n e) ∙ e;
  sent = ap (λ v. v.sent ++ (flushed ∷ [])) (header_now_same w n e);
}

hijack-Adds : (w : ResponseWriter) → w.size ≡ none → Adds w (hijack w) (hijacked ∷ [])
unfolding hijack
hijack-Adds w e = record { count = 0; size = rw e refl; sent = refl }

hijack-Adds-written :
    (w : ResponseWriter) (n : ℕ) → w.size ≡ some n → Adds w (hijack w) (hijacked ∷ [])
unfolding hijack
hijack-Adds-written w n e = record { count = n; size = rw e refl; sent = refl }

-- A call goes on from what it added.
more_tail :
    (w w' : ResponseWriter) (more rest : List Sent) (s : List Sent) (a : Adds w w' more)
    → s ≡ w'.sent ++ rest
    → s ≡ w.sent ++ (more ++ rest)
more_tail w w' more rest s a h = h ∙ ap (λ t. t ++ rest) a.sent ∙ append_assoc w.sent more rest

module _ (answer : List Sent → List ℕ → ℕ × Option ℕ) where
  write-Adds :
      (p : List ℕ) (w : ResponseWriter)
      → w.size ≡ none
      → Adds w (write answer p w).1 (header w.status ∷ body p ∷ [])
  unfolding write
  write-Adds p w e =
      let a = header_now-Adds w e in
      record {
        count = a.count + (answer (write_header_now w).sent p).0;
        size = ap (add_size (answer (write_header_now w).sent p).0) a.size;
        sent =
            ap (λ s. s ++ (body p ∷ [])) a.sent
            ∙ append_assoc w.sent (header w.status ∷ []) (body p ∷ []);
      }

  write-Adds-written :
      (p : List ℕ) (w : ResponseWriter) (n : ℕ)
      → w.size ≡ some n
      → Adds w (write answer p w).1 (body p ∷ [])
  unfolding write
  write-Adds-written p w n e = record {
    count = n + (answer (write_header_now w).sent p).0;
    size =
        ap (add_size (answer (write_header_now w).sent p).0)
          (ap (λ v. v.size) (header_now_same w n e) ∙ e);
    sent = ap (λ v. v.sent ++ (body p ∷ [])) (header_now_same w n e);
  }

  written_tail :
      (os : List Op) (w : ResponseWriter) (n : ℕ)
      → w.size ≡ some n
      → (perform_all answer os w).sent ≡ w.sent ++ tail_of os
  unfolding perform_all perform tail_of
  written_tail [] w n e = sym (append-nil w.sent)
  written_tail (set_status code ∷ os) w n e =
      written_tail os (write_header code w) n (write_header-size code w ∙ e)
      ∙ ap (λ s. s ++ tail_of os) (write_header-sent code w)
  written_tail (send p ∷ os) w n e =
      let a = write-Adds-written p w n e in
      more_tail w (write answer p w).1 _ (tail_of os) _ a
        (written_tail os (write answer p w).1 a.count a.size)
  written_tail (send_header ∷ os) w n e =
      ap (λ v. (perform_all answer os v).sent) (header_now_same w n e) ∙ written_tail os w n e
  written_tail (flush_all ∷ os) w n e =
      let a = flush-Adds-written w n e in
      more_tail w (flush w) _ (tail_of os) _ a (written_tail os (flush w) a.count a.size)
  written_tail (take_over ∷ os) w n e =
      let a = hijack-Adds-written w n e in
      more_tail w (hijack w) _ (tail_of os) _ a (written_tail os (hijack w) a.count a.size)

  sent_from :
      (os : List Op) (w : ResponseWriter)
      → w.size ≡ none
      → (perform_all answer os w).sent ≡ w.sent ++ spec_sent w.status os
  unfolding perform_all perform spec_sent
  sent_from [] w e = sym (append-nil w.sent)
  sent_from (set_status code ∷ os) w e =
      sent_from os (write_header code w) (write_header-size code w ∙ e)
      ∙ ap₂ (λ s c. s ++ spec_sent c os) (write_header-sent code w) (write_header-status code w)
  sent_from (send p ∷ os) w e =
      let a = write-Adds p w e in
      more_tail w (write answer p w).1 _ (tail_of os) _ a
        (written_tail os (write answer p w).1 a.count a.size)
  sent_from (send_header ∷ os) w e =
      let a = header_now-Adds w e in
      more_tail w (write_header_now w) _ (tail_of os) _ a
        (written_tail os (write_header_now w) a.count a.size)
  sent_from (flush_all ∷ os) w e =
      let a = flush-Adds w e in
      more_tail w (flush w) _ (tail_of os) _ a (written_tail os (flush w) a.count a.size)
  sent_from (take_over ∷ os) w e =
      let a = hijack-Adds w e in
      more_tail w (hijack w) _ (tail_of os) _ a (written_tail os (hijack w) a.count a.size)

-- From a writer that has been reset, any calls of WriteHeader, Write, WriteHeaderNow, Flush and Hijack send
-- nothing to the writer below before the first call other than WriteHeader. If that is not Hijack, the
-- header goes out then, once, with the last positive status set until then or 200, before anything else;
-- if it is Hijack, no header ever does. After that the bodies, flushes and hijacks go in their order,
-- whatever the writer below answers.
pub reset_sent :
    (answer : List Sent → List ℕ → ℕ × Option ℕ) (w : ResponseWriter) (os : List Op)
    → (perform_all answer os (reset [] w)).sent ≡ spec_sent default_status os
unfolding reset
reset_sent answer w os = sent_from answer os (reset [] w) refl
