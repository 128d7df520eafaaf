-- ===== src/Cli/Watching.antt =====
-- `watch` shows a message once, whatever the daemon answers.
use raft_ebpf.Prelude.{
  ℕ, zero, suc, String, text_eq, Bool, true, false, Option, none, some, List, [], ◌∷◌, ◌++◌, Result,
  ok, err, blocked, continue, bind_ok, ◌>>=◌, pure, if◌then◌else◌, ◌≡◌, refl, sym, ap, ◌∙◌,
  Bool-cases, inl, inr,
}
use mathlib.Core.Path.{subst}
use raft_ebpf.Prelude.Keeps.{Keeps, keeps_rules}
use mathlib.Core.List.{append_assoc, append-nil}
use raft_ebpf.Ipc.Requests.{Texts}
use raft_ebpf.Cli.Client.{
  JsonValue, Socket, CliWire, Line, out, Terminal, Console, CliResponse, CliRequest, ask_messages,
  parse_answer, exchange, connect, send_request,
}
use raft_ebpf.Cli.Messages.{
  contains, reverse_onto, message_key, message_line, show_new, show_array, array_of, headline,
  watching, rule, watch_round, watch_rounds, watch,
}
use raft_ebpf.Cli.Fresh.{Fresh, Fresh-append, added, added-append, unseen_of, shown, shown-append}

module _ ⦃v : JsonValue⦄ ⦃t : Texts⦄ where
  -- a call that has come back knows what was seen
  abbrev Ends : Result (List String) → List String → Type 0
  Ends (ok seen) seen' = seen ≡ seen'
  Ends (err e) seen' = Unit
  Ends blocked seen' = Unit

  module _ {W : Type 0} where
    -- what a part of `watch` has printed
    record Shows (seen : List String) (before : List Line) (x : Result (List String) × Terminal W)
        : Type 0 where
      new : List v.Value
      fresh : Fresh seen new
      lines : x.1.printed ≡ before ++ shown new
      end : Ends x.0 (added seen new)

  module _ {W : Type 0} where
    Shows-quiet :
        (seen : List String) (before : List Line) (x : Result (List String) × Terminal W)
        → x.1.printed ≡ before
        → Ends x.0 seen
        → Shows seen before x
    Shows-quiet seen before x same end = record {
      new = [];
      fresh = tt;
      lines = same ∙ sym (append-nil before);
      end = end;
    }

    show_new_lem :
        (msgs : List v.Value) (seen : List String) (c : Terminal W)
        → let new = unseen_of msgs seen in
          show_new msgs seen c
          ≡ (ok (added seen new), record c { printed = c.printed ++ shown new })
    unfolding show_new
    show_new_lem [] seen c =
        ap (λ (l : List Line). (ok seen, record c { printed = l })) (sym (append-nil c.printed))
    show_new_lem (m ∷ rest) seen c = elim (Bool-cases (contains seen (message_key m))) [
      | inl old ↦ rw old (show_new_lem rest seen c)
      | inr unseen ↦
          let c' : Terminal W = record c { printed = c.printed ++ out (message_line m) ∷ [] } in
          rw unseen (
            show_new_lem rest (message_key m ∷ seen) c'
            ∙ ap
                (λ (l : List Line). (
                  ok (added (message_key m ∷ seen) (unseen_of rest (message_key m ∷ seen))),
                  record c { printed = l },
                ))
                (append_assoc c.printed (out (message_line m) ∷ [])
                  (shown (unseen_of rest (message_key m ∷ seen)))))
    ]

    if-Shows :
        (b : Bool) (m k : Console W (List String)) (seen : List String) (c : Terminal W)
        → Shows seen c.printed (m c)
        → Shows seen c.printed (k c)
        → Shows seen c.printed ((if b then m else k) c)
    if-Shows true m k seen c sm sk = sm
    if-Shows false m k seen c sm sk = sk

    show_new-Shows :
        (msgs : List v.Value) (seen : List String) (c : Terminal W)
        → Shows seen c.printed (show_new msgs seen c)
    unfolding show_new
    show_new-Shows [] seen c = Shows-quiet seen c.printed (ok seen, c) refl refl
    show_new-Shows (m ∷ rest) seen c = elim (Bool-cases (contains seen (message_key m))) [
      | inl old ↦ rw old (show_new-Shows rest seen c)
      | inr unseen ↦
          let c' : Terminal W = record c { printed = c.printed ++ out (message_line m) ∷ [] } in
          let more = show_new-Shows rest (message_key m ∷ seen) c' in
          rw unseen (record {
            new = m ∷ more.new;
            fresh = (unseen, more.fresh);
            lines =
                more.lines ∙ append_assoc c.printed (out (message_line m) ∷ []) (shown more.new);
            end = more.end;
          })
    ]

    show_array-Shows :
        (o : Option (List v.Value)) (seen : List String) (c : Terminal W)
        → Shows seen c.printed (show_array o seen c)
    show_array-Shows none seen c = Shows-quiet seen c.printed (ok seen, c) refl refl
    show_array-Shows (some msgs) seen c = show_new-Shows (reverse_onto msgs []) seen c

    continue-Shows :
        {A : Type 0} (seen : List String) (before : List Line) (r : Result A)
        (f : A → Console W (List String)) (c : Terminal W)
        → c.printed ≡ before
        → ((a : A) → Shows seen c.printed (f a c))
        → Shows seen before (continue r f c)
    continue-Shows seen before (ok a) f c same rest =
        subst (λ l. Shows seen l (f a c)) same (rest a)
    continue-Shows seen before (err e) f c same rest = Shows-quiet seen before (err e, c) same tt
    continue-Shows seen before blocked f c same rest = Shows-quiet seen before (blocked, c) same tt

    bind-Shows :
        {A : Type 0} (seen : List String) (m : Console W A) (f : A → Console W (List String))
        (c : Terminal W)
        → Keeps (λ (d : Terminal W). d.printed) m
        → ((a : A) (d : Terminal W) → Shows seen d.printed (f a d))
        → Shows seen c.printed ((m >>= f) c)
    bind-Shows seen m f c quiet rest =
        let (r, d) = m c in continue-Shows seen c.printed r f d (quiet.at c) (λ a. rest a d)

    then-Shows :
        (seen : List String) (before : List Line) (x : Result (List String) × Terminal W)
        (f : List String → Console W (List String))
        → Shows seen before x
        → ((seen' : List String) (d : Terminal W) → Shows seen' d.printed (f seen' d))
        → Shows seen before (continue x.0 f x.1)
    then-Shows seen before (ok s, d) f first rest =
        let more = rest s d in
        record {
          new = first.new ++ more.new;
          fresh =
              Fresh-append seen first.new more.new first.fresh
                (subst (λ l. Fresh l more.new) first.end more.fresh);
          lines =
              more.lines
              ∙ ap (λ (l : List Line). l ++ shown more.new) first.lines
              ∙ append_assoc before (shown first.new) (shown more.new)
              ∙ ap (λ (l : List Line). before ++ l) (sym (shown-append first.new more.new));
          end =
              subst (Ends (f s d).0)
                (ap (λ l. added l more.new) first.end ∙ sym (added-append seen first.new more.new))
                more.end;
        }
    then-Shows seen before (err e, d) f first rest = first
    then-Shows seen before (blocked, d) f first rest = first

  module _ {W : Type 0} ⦃s : Socket W⦄ ⦃x : CliWire⦄ where
    connect-Keeps : (node_id : String) → Keeps (λ (d : Terminal W). d.printed) (connect node_id)
    unfolding connect
    connect-Keeps node_id = record { at = λ c. refl }

    exchange-Keeps : (text : String) → Keeps (λ (d : Terminal W). d.printed) (exchange text)
    exchange-Keeps text = record { at = λ c. refl }

    parse_answer-Keeps : (text : String) → Keeps (λ (d : Terminal W). d.printed) (parse_answer text)
    parse_answer-Keeps text = search keeps_rules

    send_request-Keeps :
        (request : CliRequest) → Keeps (λ (d : Terminal W). d.printed) (send_request request)
    unfolding send_request
    send_request-Keeps request = search (keeps_rules, exchange-Keeps, parse_answer-Keeps)

    watch_round-Shows :
        (node : String) (seen : List String) (c : Terminal W)
        → Shows seen c.printed (watch_round node seen c)
    unfolding watch_round
    watch_round-Shows node seen c = bind-Shows seen (connect node) _ c (connect-Keeps node) λ u d.
        bind-Shows seen (send_request (ask_messages (some 50) none)) _ d
          (send_request-Keeps (ask_messages (some 50) none))
          λ response e.
            if-Shows response.success (show_array (array_of response.response_data) seen)
              (pure seen) seen e (show_array-Shows (array_of response.response_data) seen e)
              (Shows-quiet seen e.printed (ok seen, e) refl refl)

    watch_rounds-Shows :
        (rounds : ℕ) (node : String) (seen : List String) (c : Terminal W)
        → Shows seen c.printed (watch_rounds rounds node seen c)
    unfolding watch_rounds
    watch_rounds-Shows zero node seen c = Shows-quiet seen c.printed (ok seen, c) refl refl
    watch_rounds-Shows (suc rounds) node seen c =
        then-Shows seen c.printed (watch_round node seen c) (watch_rounds rounds node)
          (watch_round-Shows node seen c) (watch_rounds-Shows rounds node)

    -- Whatever the daemon answers and however a round ends, the lines that the rounds of `watch`
    -- print after its two lines at the top are those of a list of messages of which no two have the
    -- same key, the timestamp with the text: a message that is answered again is not shown again.
    pub watch-shows_once :
        (rounds : ℕ) (node : String) (c : Terminal W)
        → (new : List v.Value) × Fresh [] new
          × ((watch rounds node c).1.printed ≡ (c.printed ++ headline node) ++ shown new)
    unfolding watch
    watch-shows_once rounds node c =
        let c' : Terminal W = record c {
          printed = (c.printed ++ out (watching node) ∷ []) ++ out rule ∷ [];
        } in
        let all = watch_rounds-Shows rounds node [] c' in
        (
          all.new,
          all.fresh,
          all.lines
              ∙ ap (λ (l : List Line). l ++ shown all.new)
                  (append_assoc c.printed (out (watching node) ∷ []) (out rule ∷ [])),
        )

    -- A round over an answer with an array of messages goes on, and prints the lines of those
    -- that were not seen, the oldest first; the answer has the newest first.
    pub watch_round-shows :
        (node : String) (seen : List String) (c d e : Terminal W) (response : CliResponse)
        (msgs : List v.Value)
        → connect node c ≡ (ok tt, d)
        → send_request (ask_messages (some 50) none) d ≡ (ok response, e)
        → response.success ≡ true
        → array_of response.response_data ≡ some msgs
        → let new = unseen_of (reverse_onto msgs []) seen in
          watch_round node seen c
          ≡ (ok (added seen new), record e { printed = e.printed ++ shown new })
    unfolding watch_round
    watch_round-shows node seen c d e response msgs connected answered good found =
        bind_ok (connect node) _ connected
        ∙ bind_ok (send_request (ask_messages (some 50) none)) _ answered
        ∙ rw (good, found) (show_new_lem (reverse_onto msgs []) seen e)
