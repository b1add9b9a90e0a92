-- ===== src/Client/Listener/Sessions/Tests.antt =====
-- Two sessions with different identifiers, the first ended by its data channel.
use yamrp.Prelude.{List, Option, String, [], ap, none, refl, some, suc, sym, zero, ℕ, ◌∙◌, ◌∷◌, ◌≡◌}
use yamrp.Errors.{eof}
use yamrp.Schedules.{run}
use yamrp.Client.Listener.Sessions.{
  Event, Listener, channel_closes, finished, new_listener, signals, starts, step, stores, takes_eol,
}
use yamrp.Client.Listener.Sessions.Cleanup.{Fits}
use yamrp.Client.Listener.Sessions.Reachable.{proxies_closed_once}

-- Identifiers that differ: session n gets a text of n letters.
letters : ℕ → String
letters zero = ""
letters (suc n) = String.◌∷◌ "a" (letters n)

size : String → ℕ
size String.[] = 0
size (String.◌∷◌ c s) = suc (size s)

size-letters : (n : ℕ) → size (letters n) ≡ n
unfolding letters size
size-letters zero = refl
size-letters (suc n) = ap suc (size-letters n)

letters_distinct : (m n : ℕ) → letters m ≡ letters n → m ≡ n
letters_distinct m n e = sym (size-letters m) ∙ (ap size e ∙ size-letters n)

abbrev reached : Option Listener → Listener
reached none = new_listener
reached (some s) = s

abbrev session : List Event
session = starts ∷ starts ∷ stores 1 ∷ channel_closes 1 ∷ signals 1 (some eof) ∷ takes_eol 1 ∷ []

abbrev over : Listener
over = reached (run (step letters) session new_listener)

proxies_closed_once_example :
    Fits (over.proxies (letters 1)) (over.sessions 1).closes (over.sessions 1).place
unfolding run step new_listener letters
proxies_closed_once_example = proxies_closed_once letters letters_distinct session 1 {s = over} refl

closed_by_channel : ((over.sessions 1).place ≡ finished) × ((over.sessions 1).closes ≡ 1)
unfolding run step new_listener letters
closed_by_channel = (refl, refl)
