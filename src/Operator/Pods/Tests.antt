-- ===== src/Operator/Pods/Tests.antt =====
-- Runs of the page over three pods of two namespaces, one of them stopped.
use mathlib.Core.List.{Perm}
use webshark.Prelude.{
  decimal, is_space, codes, Text, ◌≡◌, refl, ap, true, false, some, List, [], ◌∷◌, map, arith,
  text_eq, length,
}
use webshark.Operator.Pods.{Pod, Locale, is_running, is_selector, words_of, search, pod_key}
use webshark.Operator.Pods.Search.{kept, search-perm}
use webshark.Operator.Pods.Start.{Form, drop_stopped, count, start}
use webshark.Operator.Pods.Start.Laws.{key_of, start-exchange}

abbrev pod : Text → Text → Text → Pod
pod ns name phase = record {
  namespace = ns;
  name = name;
  phase = phase;
  labels = (codes "tier", codes "core") ∷ [];
}

abbrev ims : Text
ims = codes "ims"

abbrev lab : Text
lab = codes "test"

abbrev pods : List Pod
pods =
    pod ims (codes "pcscf-0") (codes "Running")
    ∷ pod lab (codes "pcscf-1") (codes "Succeeded")
    ∷ pod lab (codes "dns") (codes "Running")
    ∷ []

-- A locale whose order does not tell two names apart.
abbrev locale : Locale
locale = record { lower = λ s. s; leq = λ a b. true }

words_run : words_of locale (codes "pcs") ≡ codes "pcs" ∷ []
unfolding words_of is_space
words_run = refl

plain_run : is_selector (codes "pcs") ≡ false
unfolding is_selector
plain_run = refl

selector_run : is_selector (codes "tier=core") ≡ true
unfolding is_selector
selector_run = refl

search-perm_example :
    Perm
      (map (λ s. s.pod) (search locale (codes "pcs") [] pods))
      (kept locale [] (words_of locale (codes "pcs")) pods)
unfolding words_of is_space
search-perm_example = search-perm locale (codes "pcs") [] pods refl plain_run

dropped_run :
    drop_stopped pods (codes "test/pcscf-1" ∷ codes "test/dns" ∷ []) ≡ codes "test/dns" ∷ []
unfolding drop_stopped is_running pod_key
dropped_run = refl

count_run : (count [] 1 pods [] (codes "test/dns" ∷ [])).go ≡ codes "Capture 1 pod"
unfolding count decimal
count_run = refl

abbrev form : Form
form = record { capname = []; filter = codes " port 5060 "; iface = []; duration = []; snaplen = 0 }

start-exchange_example :
    start [] [] [] (some ims) form (key_of ims (codes "x") ∷ key_of lab (codes "y") ∷ []) []
    ≡ start [] [] [] (some ims) form (key_of lab (codes "x") ∷ key_of ims (codes "y") ∷ []) []
start-exchange_example =
    start-exchange [] [] [] ims form ims lab (codes "x") (codes "y") []
      (λ e. absurd (omega (arith, ap length e))) (ground arith) (ground arith) (ground arith)
      (ground arith)
