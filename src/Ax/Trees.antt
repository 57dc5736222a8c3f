-- ===== src/Ax/Trees.antt =====
-- The size of a list of `AxNode`s, and predicates on all their nodes.
use stapler_mcp.Common.{ℕ, suc, ◌+◌, ◌≡◌, arith, Text, Option}
use stapler_mcp.Ax.{AxNodes, node, nil, cons, append}

-- The nodes at every depth.
unfoldable pub size : AxNodes → ℕ
size nil = 0
size (cons (node r o n v cs) ns) = suc (size cs + size ns)

-- All nodes have the property, by their reference, role, name and value.
abbrev pub AllNodes {ℓ} : (Text → Text → Text → Option Text → Type ℓ) → AxNodes → Type ℓ
AllNodes P nil = Unit
AllNodes P (cons (node r o n v cs) ns) = P r o n v × (AllNodes P cs × AllNodes P ns)

pub size-append : (ms ns : AxNodes) → size (append ms ns) ≡ size ms + size ns
unfolding size append
size-append nil ns = omega arith
size-append (cons (node r o n v cs) ms) ns = omega (arith, size-append ms ns)

pub AllNodes-append {ℓ} :
    (P : Text → Text → Text → Option Text → Type ℓ) (ms ns : AxNodes)
    → AllNodes P ms
    → AllNodes P ns
    → AllNodes P (append ms ns)
unfolding append
AllNodes-append P nil ns h k = k
AllNodes-append P (cons (node r o n v cs) ms) ns (p, (q, h)) k =
    (p, (q, AllNodes-append P ms ns h k))

pub AllNodes-map_of {ℓ κ} :
    {P : Text → Text → Text → Option Text → Type ℓ} {Q : Text → Text → Text → Option Text → Type κ}
    (f : (r o n : Text) (v : Option Text) → P r o n v → Q r o n v) (ns : AxNodes)
    → AllNodes P ns
    → AllNodes Q ns
AllNodes-map_of f nil h = tt
AllNodes-map_of f (cons (node r o n v cs) ns) (p, (q, h)) =
    (f r o n v p, (AllNodes-map_of f cs q, AllNodes-map_of f ns h))
