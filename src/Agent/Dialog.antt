-- ===== src/Agent/Dialog.antt =====
-- The conversation memory: agent/src/dialog.ts. The class's two private fields are a record, and the
-- clock is an argument. `toLowerCase` and `normalize("NFD")` are a parameter of the cancel test.
use stellar_voice_control_pr.Common.{
  ℕ, ◌+◌, Bool, true, false, not, ◌&&◌, ◌||◌, ◌==◌, leb, ltb, Option, none, some, List, [], ◌∷◌,
  ◌++◌, length, any, if◌then◌else◌,
}
use stellar_voice_control_pr.Common.Text.{Text, codes, is_space, is_digit, strip_prefix}
use stellar_voice_control_pr.TurnFlow.{trim, is_blank}
use stellar_voice_control_pr.TurnFlow.{text_eq}
use stellar_voice_control_pr.Agent.{
  Draft, ClarificationQuestion, send_recipient, sell_route, sell_price, rule_asset,
}
use stellar_voice_control_pr.Agent.Language.{language_base}

pub data Role : Type 0 where
  user assistant : Role

-- `DialogExchange`
pub record DialogExchange : Type 0 where
  pub role : Role
  pub said : Text

-- `PendingClarification`
pub record PendingClarification : Type 0 where
  pub kind : Text
  pub filled_slots : List (Text × Text)
  pub missing : List Text
  pub expires_at : ℕ

pub record DialogMemory : Type 0 where
  pub exchanges : List DialogExchange
  pub pending : Option PendingClarification

abbrev pub empty_memory : DialogMemory
empty_memory = record { exchanges = []; pending = none }

abbrev pub dialog_ttl_ms : ℕ
dialog_ttl_ms = 90000

abbrev pub max_exchanges : ℕ
max_exchanges = 4

-- `slice(-most)`
unfoldable pub keep_last : ℕ → List DialogExchange → List DialogExchange
keep_last most [] = []
keep_last most (x ∷ xs) =
    let rest = keep_last most xs in if ltb most (length (x ∷ xs)) then rest else x ∷ xs

-- `#push`
unfoldable pub push : Role → Text → DialogMemory → DialogMemory
unfolding trim keep_last
push role text d = if is_blank (trim text) then d else record d {
  exchanges =
      keep_last (max_exchanges + max_exchanges)
        (d.exchanges ++ (record { role = role; said = trim text }) ∷ []);
}

-- `setPending`
unfoldable pub set_pending : Draft → ℕ → DialogMemory → DialogMemory
set_pending draft now d = record d {
  pending = some (record {
    kind = draft.kind;
    filled_slots = draft.filled_slots;
    missing = draft.missing;
    expires_at = now + dialog_ttl_ms;
  });
}

-- `pending`: an expired clarification is dropped on read.
unfoldable pub read_pending : ℕ → DialogMemory → DialogMemory
read_pending now d = elim d.pending [
  | none ↦ d
  | some p ↦ if leb p.expires_at now then record d { pending = none } else d
]

-- `isEmpty`
unfoldable pub is_empty_memory : DialogMemory → Bool
is_empty_memory d = elim d.exchanges [
  | [] ↦ elim d.pending [ none ↦ true | some p ↦ false ]
  | x ∷ xs ↦ false
]

abbrev role_name : Role → Text
role_name user = codes "user"
role_name assistant = codes "assistant"

-- `join(separator)`
unfoldable pub join : Text → List Text → Text
join separator [] = []
join separator (s ∷ []) = s
join separator (s ∷ t ∷ ts) = s ++ (separator ++ join separator (t ∷ ts))

unfoldable pub exchange_lines : List DialogExchange → List Text
exchange_lines [] = []
exchange_lines (x ∷ xs) = (role_name x.role ++ (codes ": " ++ x.said)) ∷ exchange_lines xs

unfoldable pub slot_texts : List (Text × Text) → List Text
slot_texts [] = []
slot_texts ((k, v) ∷ slots) = (k ++ (codes "=" ++ v)) ∷ slot_texts slots

-- `formatSlots`
unfoldable pub format_slots : List (Text × Text) → Text
unfolding join slot_texts
format_slots [] = codes "nothing yet"
format_slots (slot ∷ slots) = join (codes ", ") (slot_texts (slot ∷ slots))

unfoldable pub pending_lines : Option PendingClarification → List Text
unfolding join format_slots
pending_lines none = []
pending_lines (some p) =
    (codes "Pending clarification: the last request was a \""
      ++ (p.kind
          ++ (codes "\" action with missing slot(s) "
              ++ (join (codes ", ") p.missing ++ codes "."))))
    ∷ (codes "Already known: " ++ (format_slots p.filled_slots ++ codes "."))
    ∷ codes
        "If the user's new utterance answers this question, fill the slot and call the matching tool. Otherwise start a fresh request."
    ∷ []

-- `contextBlock`, behind the read of the pending clarification.
unfoldable pub block_of : DialogMemory → Text
unfolding is_empty_memory join exchange_lines pending_lines
block_of d =
    if is_empty_memory d
    then []
    else join (codes "\n") (
        codes "Conversation so far (most recent last):"
        ∷ (exchange_lines d.exchanges ++ pending_lines d.pending))

unfoldable pub context_block : ℕ → DialogMemory → Text × DialogMemory
unfolding read_pending block_of
context_block now d = (block_of (read_pending now d), read_pending now d)

-- `clarificationSentence`, with the texts of `QUESTIONS`.
unfoldable pub english : ClarificationQuestion → Text
english send_recipient = codes "Who should I send it to?"
english sell_route = codes "Via the bank (anchor) or peer-to-peer?"
english sell_price = codes "What price in TRY?"
english rule_asset = codes "Which asset for the limit, USDC or XLM?"

unfoldable pub turkish : ClarificationQuestion → Text
turkish send_recipient = codes "Kime göndereyim?"
turkish sell_route = codes "Bankadan mı (anchor), yoksa P2P olarak mı?"
turkish sell_price = codes "Kaç liradan?"
turkish rule_asset = codes "Limit hangi varlık için, USDC mi XLM mi?"

abbrev is_turkish : Option Text → Bool
is_turkish none = false
is_turkish (some base) = text_eq base (codes "tr")

unfoldable pub clarification_sentence : (Text → Text) → ClarificationQuestion → Option Text → Text
unfolding english turkish language_base text_eq
clarification_sentence lower question language =
    if is_turkish (language_base lower language) then turkish question else english question

-- `\w`
abbrev pub is_word : ℕ → Bool
is_word c = is_digit c || (leb b'a' c && leb c b'z') || (leb b'A' c && leb c b'Z') || c == b'_'

-- `\b` behind a phrase.
abbrev ends_word : Option Text → Bool
ends_word none = false
ends_word (some []) = true
ends_word (some (c ∷ s)) = not (is_word c)

abbrev cancel_phrases : List Text
cancel_phrases =
    codes "cancel"
    ∷ codes "iptal"
    ∷ codes "vazgec"
    ∷ codes "never mind"
    ∷ codes "nevermind"
    ∷ codes "forget it"
    ∷ codes "bosver"
    ∷ []

-- `CANCEL.test`, behind a character that is part of a word or not.
unfoldable pub has_cancel : Bool → Text → Bool
unfolding strip_prefix
has_cancel in_word [] = false
has_cancel in_word (c ∷ s) =
    (not in_word && any (λ p. ends_word (strip_prefix p (c ∷ s))) cancel_phrases)
    || has_cancel (is_word c) s

-- The combining marks cut out, and the dotless i replaced.
unfoldable pub strip_marks : Text → Text
strip_marks [] = []
strip_marks (c ∷ s) =
    let rest = strip_marks s in
    if leb 0x300 c && leb c 0x36f then rest else (if c == 0x131 then b'i' else c) ∷ rest

-- `replace(/\s+/g, " ")`, behind a space or not.
unfoldable pub collapse_spaces : Bool → Text → Text
collapse_spaces behind [] = []
collapse_spaces behind (c ∷ s) =
    let rest = collapse_spaces (is_space c) s in
    if is_space c then (if behind then rest else b' ' ∷ rest) else c ∷ rest

-- `isCancelUtterance`
unfoldable pub is_cancel_utterance : (Text → Text) → Text → Bool
unfolding has_cancel strip_marks collapse_spaces trim
is_cancel_utterance decompose text =
    has_cancel false (trim (collapse_spaces false (strip_marks (decompose text))))
