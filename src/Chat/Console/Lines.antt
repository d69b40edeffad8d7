-- ===== src/Chat/Console/Lines.antt =====
-- Which command a line is that is typed in the chat programs of examples.
use raknet_sys.Prelude.{
  ◌≡◌, ◌≢◌, ◌↔◌, refl, ap, ◌∙◌, ◌⊎◌, inl, inr, true, false, [], ◌∷◌, ◌++◌, Bytes, All, arith,
  Bool-cases,
}
use raknet_sys.Prelude.Texts.{codes}
use raknet_sys.Wrapper.Address.{bytes_eq}
use raknet_sys.Wrapper.Text.Utf8.{Chars}
use raknet_sys.Chat.Text.{trim_end}
use raknet_sys.Chat.Text.Trim.{
  IsWhitespace, EndsInText, trim_end_lem, trim_end-append, trim_end-EndsInText,
}
use raknet_sys.Chat.Console.{Command, quit, stat, disconnect, ping_server, last_ping, say, parse}

bytes_eq_iff : (xs ys : Bytes) → (bytes_eq xs ys ≡ true) ↔ (xs ≡ ys)
bytes_eq_iff [] [] = (λ h. refl, λ h. refl)
bytes_eq_iff [] (y ∷ ys) = (λ h. cc, λ h. cc)
bytes_eq_iff (x ∷ xs) [] = (λ h. cc, λ h. cc)
bytes_eq_iff (x ∷ xs) (y ∷ ys) = ground (arith, bytes_eq_iff xs ys)

-- The line is a word and white space after it.
abbrev pub Reads : Chars → Chars → Type 0
Reads line word = (ws : Chars) × (line ≡ word ++ ws) × All IsWhitespace ws

bytes_differ : (xs ys : Bytes) → bytes_eq xs ys ≡ false → xs ≢ ys
bytes_differ xs ys n e = ground (arith, n, (bytes_eq_iff xs ys).1 e)

-- The words that are commands.
abbrev pub IsWord : Chars → Type 0
IsWord m =
    (m ≡ codes "quit")
    ⊎ (m ≡ codes "stat")
    ⊎ (m ≡ codes "disconnect")
    ⊎ (m ≡ codes "ping")
    ⊎ (m ≡ codes "get_last_ping")

no-IsWord :
    (m : Chars)
    → bytes_eq m (codes "quit") ≡ false
    → bytes_eq m (codes "stat") ≡ false
    → bytes_eq m (codes "disconnect") ≡ false
    → bytes_eq m (codes "ping") ≡ false
    → bytes_eq m (codes "get_last_ping") ≡ false
    → ¬ IsWord m
no-IsWord m n1 n2 n3 n4 n5 (inl e) = bytes_differ m (codes "quit") n1 e
no-IsWord m n1 n2 n3 n4 n5 (inr (inl e)) = bytes_differ m (codes "stat") n2 e
no-IsWord m n1 n2 n3 n4 n5 (inr (inr (inl e))) = bytes_differ m (codes "disconnect") n3 e
no-IsWord m n1 n2 n3 n4 n5 (inr (inr (inr (inl e)))) = bytes_differ m (codes "ping") n4 e
no-IsWord m n1 n2 n3 n4 n5 (inr (inr (inr (inr e)))) = bytes_differ m (codes "get_last_ping") n5 e

-- What is left of a line, with the command that it is.
data Parsed (m : Chars) : Command → Type 0 where
  is_quit : m ≡ codes "quit" → Parsed m quit
  is_stat : m ≡ codes "stat" → Parsed m stat
  is_disconnect : m ≡ codes "disconnect" → Parsed m disconnect
  is_ping : m ≡ codes "ping" → Parsed m ping_server
  is_last_ping : m ≡ codes "get_last_ping" → Parsed m last_ping
  is_message : ¬ IsWord m → Parsed m (say m)

parse-Parsed : (line : Chars) → Parsed (trim_end line) (parse line)
unfolding parse
parse-Parsed line =
    let m = trim_end line in
    elim (Bool-cases (bytes_eq m (codes "quit"))) [
      | inl e ↦ rw e (is_quit ((bytes_eq_iff m (codes "quit")).0 e))
      | inr n1 ↦ elim (Bool-cases (bytes_eq m (codes "stat"))) [
        | inl e ↦ rw (n1, e) (is_stat ((bytes_eq_iff m (codes "stat")).0 e))
        | inr n2 ↦ elim (Bool-cases (bytes_eq m (codes "disconnect"))) [
          | inl e ↦ rw (n1, n2, e) (is_disconnect ((bytes_eq_iff m (codes "disconnect")).0 e))
          | inr n3 ↦ elim (Bool-cases (bytes_eq m (codes "ping"))) [
            | inl e ↦ rw (n1, n2, n3, e) (is_ping ((bytes_eq_iff m (codes "ping")).0 e))
            | inr n4 ↦ elim (Bool-cases (bytes_eq m (codes "get_last_ping"))) [
              | inl e ↦
                  rw (n1, n2, n3, n4, e)
                    (is_last_ping ((bytes_eq_iff m (codes "get_last_ping")).0 e))
              | inr n5 ↦ rw (n1, n2, n3, n4, n5) (is_message (no-IsWord m n1 n2 n3 n4 n5))
            ]
          ]
        ]
      ]
    ]

-- How a command is spelt, and the messages that are not spelt as another command.
abbrev pub spelling : Command → Chars
spelling quit = codes "quit"
spelling stat = codes "stat"
spelling disconnect = codes "disconnect"
spelling ping_server = codes "ping"
spelling last_ping = codes "get_last_ping"
spelling (say m) = m

abbrev pub IsOwn : Command → Type 0
IsOwn (say m) = ¬ IsWord m
IsOwn _ = Unit

Parsed-spelling : (m : Chars) (c : Command) → Parsed m c → (m ≡ spelling c) × IsOwn c
Parsed-spelling m _ (is_quit e) = (e, tt)
Parsed-spelling m _ (is_stat e) = (e, tt)
Parsed-spelling m _ (is_disconnect e) = (e, tt)
Parsed-spelling m _ (is_ping e) = (e, tt)
Parsed-spelling m _ (is_last_ping e) = (e, tt)
Parsed-spelling m _ (is_message n) = (refl, n)

Parsed-message : (m : Chars) (c : Command) → Parsed m c → ¬ IsWord m → c ≡ say m
Parsed-message m _ (is_quit e) n = absurd (n (inl e))
Parsed-message m _ (is_stat e) n = absurd (n (inr (inl e)))
Parsed-message m _ (is_disconnect e) n = absurd (n (inr (inr (inl e))))
Parsed-message m _ (is_ping e) n = absurd (n (inr (inr (inr (inl e)))))
Parsed-message m _ (is_last_ping e) n = absurd (n (inr (inr (inr (inr e)))))
Parsed-message m _ (is_message k) n = refl

spelling-parse :
    (line : Chars) (c : Command) → trim_end line ≡ spelling c → IsOwn c → parse line ≡ c
unfolding parse
spelling-parse line quit e own = rw e
spelling-parse line stat e own = rw e
spelling-parse line disconnect e own = rw e
spelling-parse line ping_server e own = rw e
spelling-parse line last_ping e own = rw e
spelling-parse line (say m) e own =
    Parsed-message (trim_end line) (parse line) (parse-Parsed line) (rw e own) ∙ ap say e

-- A line is a command exactly if it is the word of that command, or for a message that is no such
-- word its text, followed by white space only; the text of a message does not end in white space.
pub parse_lem :
    (line : Chars) (c : Command)
    → (parse line ≡ c) ↔ (Reads line (spelling c) × EndsInText (spelling c) × IsOwn c)
parse_lem line c = (
  λ h.
      let (e, own) = Parsed-spelling (trim_end line) (parse line) (parse-Parsed line) in
      let (ws, split, white, ends) = trim_end_lem line in
      rw (← h) ((ws, rw (← e) split, white), rw (← e) ends, own),
  λ ((ws, split, white), ends, own).
      spelling-parse line c
        (ap trim_end split
          ∙ trim_end-append (spelling c) ws white
          ∙ trim_end-EndsInText (spelling c) ends)
        own,
)
