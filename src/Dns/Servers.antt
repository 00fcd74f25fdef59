-- ===== src/Dns/Servers.antt =====
-- What a resolver reads of the file (`render` of crates/mc-sandbox/src/dns.rs).
use Prim.Native.Char.{char, code}
use Prim.Native.String as Texts
use Prim.Native.String.append as appending
use text.Mathlib.TextLemmas.{append_assoc as text_assoc}
use mobile_coder.Prelude.{
  ℕ, ◌≡◌, refl, sym, ap, ◌∙◌, ◌<>◌, String, false, none, zero, suc, List, [], ◌∷◌, map, take,
  filter_map, eqb, All,
}
use mobile_coder.Prelude.Text.{lines, push_front}
use mobile_coder.Prelude.Text.Parts.{has_char, has_char-append, or_left, or_right}
use mobile_coder.Prelude.Text.Affix.{strip_prefix}
use mobile_coder.Prelude.Text.Affix.Ends.{strip_prefix-append}
use mobile_coder.Dns.{IpAddr, fallback_servers, header, fallback_note, server_lines, render}

-- The servers in the text of a resolv.conf.
pub nameservers : String → List String
nameservers text = filter_map (strip_prefix "nameserver ") (lines text)

-- A text that stays on its line.
abbrev pub IsInline : String → Type 0
IsInline s = (has_char 10 s ≡ false) × (has_char 13 s ≡ false)

lines-inline :
    (l rest : String) → IsInline l → lines (l <> Texts.◌∷◌ (char 10 tt) rest) ≡ l ∷ lines rest
unfolding lines
lines-inline Texts.[] rest h = rw (appending.nil (Texts.◌∷◌ (char 10 tt) rest)) refl
lines-inline (Texts.◌∷◌ c l) rest (h, k) =
    rw
      (
        appending.cons c l (Texts.◌∷◌ (char 10 tt) rest),
        or_left (eqb (code c) 10) (has_char 10 l) h,
        or_left (eqb (code c) 13) (has_char 13 l) k,
      )
      (ap (push_front c)
        (lines-inline l rest (or_right (eqb (code c) 10) _ h, or_right (eqb (code c) 13) _ k)))

newline_first : (s : String) → "\n" <> s ≡ Texts.◌∷◌ (char 10 tt) s
newline_first s = appending.cons (char 10 tt) "" s ∙ ap (Texts.◌∷◌ (char 10 tt)) (appending.nil s)

nameservers-lines :
    (servers : List String) → All IsInline servers → nameservers (server_lines servers) ≡ servers
unfolding nameservers server_lines lines
nameservers-lines [] h = refl
nameservers-lines (s ∷ ss) ((h, k), rest) =
    rw
      (
        newline_first (server_lines ss),
        sym (text_assoc "nameserver " s (Texts.◌∷◌ (char 10 tt) (server_lines ss))),
        lines-inline ("nameserver " <> s) (server_lines ss)
            (has_char-append 10 "nameserver " s refl h, has_char-append 13 "nameserver " s refl k),
        strip_prefix-append "nameserver " s,
      )
      (ap (λ l. s ∷ l) (nameservers-lines ss rest))

-- A comment line holds no server.
nameservers-comment :
    (line l rest : String)
    → line ≡ l <> "\n"
    → IsInline l
    → strip_prefix "nameserver " l ≡ none
    → nameservers (line <> rest) ≡ nameservers rest
unfolding nameservers
nameservers-comment line l rest e h other =
    rw (e, text_assoc l "\n" rest, newline_first rest, lines-inline l rest h, other) refl

module _ (I : IpAddr) where
  map-All :
      (n : ℕ) (servers : List I.Addr)
      → All (λ a. IsInline (I.display a)) servers
      → All IsInline (map I.display (take n servers))
  map-All zero servers h = tt
  map-All (suc n) [] h = tt
  map-All (suc n) (a ∷ rest) (here, h) = (here, map-All n rest h)

  -- The servers that the file is to name.
  abbrev pub chosen : List I.Addr → List String
  chosen [] = fallback_servers
  chosen (a ∷ rest) = map I.display (take 3 (a ∷ rest))

  -- A resolver reads of the rendered file the first three servers at most, in order, or the two
  -- fallbacks where there are none, given that an address is printed on one line.
  pub nameservers-render :
      (servers : List I.Addr)
      → All (λ a. IsInline (I.display a)) servers
      → nameservers (render I servers) ≡ chosen servers
  unfolding render
  nameservers-render [] h =
      nameservers-comment header "# Written by mobile-coder from the device's current network."
        (fallback_note <> server_lines fallback_servers) refl (refl, refl) refl
      ∙ nameservers-comment fallback_note
          "# The platform reported no DNS servers; using public fallbacks."
          (server_lines fallback_servers) refl (refl, refl) refl
      ∙ nameservers-lines fallback_servers ((refl, refl), ((refl, refl), tt))
  nameservers-render (a ∷ rest) h =
      nameservers-comment header "# Written by mobile-coder from the device's current network."
        (server_lines (map I.display (take 3 (a ∷ rest)))) refl (refl, refl) refl
      ∙ nameservers-lines (map I.display (take 3 (a ∷ rest))) (map-All 3 (a ∷ rest) h)
