-- ===== src/Shell/Precedence.antt =====
-- The precedence of the sources, and the hover latch (app/src/notch/shellState.ts).
use stellar_voice_control_pr.Common.{
  ℕ, zero, suc, length, ◌≡◌, refl, Bool, true, false, Option, none, some, List, [], ◌∷◌, ◌++◌,
  String, arith, if◌then◌else◌,
}
use stellar_voice_control_pr.Shell.{
  ShellProposals, pin_of, attention_of, is_open, resolve_shell_state, apply_hover_edge,
}

-- The first proposal of a list that is not "collapsed".
abbrev pub first_open : List String → String
first_open [] = "collapsed"
first_open (name ∷ names) = if is_open name then name else first_open names

-- The sources from the highest to the lowest.
abbrev pub by_rank : ShellProposals → Option Bool → List String
by_rank p voice_attention =
    p.hotkey
    ∷ (if attention_of voice_attention then p.voice else "collapsed")
    ∷ pin_of p
    ∷ p.hover
    ∷ p.voice
    ∷ []

-- The resolved state is the first open proposal in the documented order: the hotkey, the voice if it
-- asks for attention, the pin, hover, the voice.
pub resolve_shell_state-by_rank :
    (p : ShellProposals) (voice_attention : Option Bool)
    → resolve_shell_state p voice_attention ≡ first_open (by_rank p voice_attention)
unfolding resolve_shell_state attention_of
resolve_shell_state-by_rank p none = ground arith
resolve_shell_state-by_rank p (some true) = ground arith
resolve_shell_state-by_rank p (some false) = ground arith

-- The latch over a sequence of hover edges: what is accepted, and the latch at the end.
unfoldable hover_edges : Bool → List Bool → List Bool × Bool
unfolding apply_hover_edge
hover_edges latched [] = ([], latched)
hover_edges latched (inside ∷ edges) =
    let edge = apply_hover_edge inside latched in
    let (accepted, last) = hover_edges edge.latched edges in (edge.accept ∷ accepted, last)

abbrev repeat {ℓ} : {A : Type ℓ} → ℕ → A → List A
repeat zero a = []
repeat (suc n) a = a ∷ repeat n a

hover_edges-open :
    (edges : List Bool) → hover_edges false edges ≡ (repeat (length edges) true, false)
unfolding hover_edges apply_hover_edge
hover_edges-open [] = refl
hover_edges-open (true ∷ edges) = rw (hover_edges-open edges) refl
hover_edges-open (false ∷ edges) = rw (hover_edges-open edges) refl

-- After a dismissal every edge inside is swallowed, however many there are; the first edge out is
-- accepted and clears the latch, and every edge behind it is accepted.
hover_edges_latched :
    (n : ℕ) (edges : List Bool)
    → hover_edges true (repeat n true ++ false ∷ edges)
      ≡ (repeat n false ++ true ∷ repeat (length edges) true, false)
unfolding hover_edges apply_hover_edge
hover_edges_latched zero edges = rw (hover_edges-open edges) refl
hover_edges_latched (suc n) edges = rw (hover_edges_latched n edges) refl
