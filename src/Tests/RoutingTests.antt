-- ===== src/Tests/RoutingTests.antt =====
-- agentd/src/agentd/routing.py and gitops.py on single inputs.
use code_workflow.Prelude.{◌≡◌, ◌≢◌, refl, none, some, true, false, lower, eq_iff}
use code_workflow.Prelude.Int.{pos}
use code_workflow.Prelude.Split.{has_char}
use code_workflow.Routing.{
  RouteRequest, drop, route, other_of, route_for_recipient, sender_of, provenance_footer,
  gateway_footer, parse_provenance, parse_gateway_marker,
}
use code_workflow.Routing.Footers.{parse_provenance-provenance_footer}
use code_workflow.Routing.Rules.{gateway_footer_drop, own_footer_unrouted}
use code_workflow.Gitops.{role_branch_name, parse_role_branch, session_dir_name}
use code_workflow.Gitops.Branches.{parse_role_branch-role_branch_name}

session_dir : session_dir_name "huozhe/code-workflow#42" ≡ "huozhe__code-workflow__42"
unfolding session_dir_name
session_dir = refl

branch_42 :
    role_branch_name "huozhe/code-workflow" (pos 42) "architect"
    ≡ "agentd/huozhe__code-workflow/42/architect"
unfolding role_branch_name
branch_42 = refl

branch_nested : parse_role_branch (some "agentd/o__r/4/architect/x") "o/r" ≡ none
unfolding parse_role_branch
branch_nested = refl

branch_spaced :
    parse_role_branch (some "agentd/o__r/ 4_2 /developer") "o/r" ≡ some (pos 42, "developer")
unfolding parse_role_branch
branch_spaced = refl

parse_role_branch-role_branch_name_example :
    parse_role_branch (some (role_branch_name "o/r" (pos 42) "architect")) "o/r"
    ≡ some (pos 42, "architect")
unfolding has_char
parse_role_branch-role_branch_name_example =
    parse_role_branch-role_branch_name "o/r" (pos 42) "architect" refl refl refl

footer :
    provenance_footer "o/r#42" "architect" "t-1"
    ≡ "<!-- agentd:turn session=o/r#42 role=architect turn=t-1 -->"
unfolding provenance_footer
footer = refl

-- The pattern is searched for inside the body, and gives back a solid run that reads too far.
quoted :
    parse_provenance (some "text <!--agentd:turn session=k role=r turn=t-1-->")
    ≡ some (record { session = "k"; role = "r"; turn = "t-1" })
unfolding parse_provenance
quoted = refl

quoted_gateway : parse_gateway_marker (some "<!-- agentd:gateway session= -->") ≡ none
unfolding parse_gateway_marker
quoted_gateway = refl

parse_provenance-provenance_footer_example :
    parse_provenance (some (provenance_footer "o/r#42" "architect" "t-1"))
    ≡ some (record { session = "o/r#42"; role = "architect"; turn = "t-1" })
parse_provenance-provenance_footer_example =
    parse_provenance-provenance_footer "o/r#42" "architect" "t-1" refl refl refl
      (refl, (refl, (refl, (refl, (refl, (refl, tt))))))
      (refl, (refl, (refl, (refl, (refl, (refl, (refl, (refl, (refl, tt)))))))))
      (refl, (refl, (refl, tt)))

abbrev gateway_comment : RouteRequest
gateway_comment = record {
  sender = some "gatewaybot";
  recipient_login = "huozheclaude";
  recipient_role = "architect";
  other_bot_login = some "huozhegrok";
  owner = "Huozhe";
  body = some (gateway_footer "o/r#4");
  session_paused = true;
  bot_logins = none;
}

gateway_no_owner : sender_of gateway_comment ≢ lower gateway_comment.owner
unfolding lower
gateway_no_owner e = cc ((eq_iff (sender_of gateway_comment) (lower gateway_comment.owner)).1 e)

gateway_footer_drop_example : (route_for_recipient gateway_comment).action ≡ drop
gateway_footer_drop_example =
    gateway_footer_drop gateway_comment "o/r#4" refl (refl, (refl, (refl, (refl, (refl, tt))))) refl
      gateway_no_owner

-- Someone who is neither the owner nor the other agent quotes the architect's footer to the architect.
abbrev quoted_footer : RouteRequest
quoted_footer = record gateway_comment {
  sender = some "alice";
  body = some (provenance_footer "o/r#42" "architect" "t-1");
  session_paused = false;
}

quoted_no_owner : sender_of quoted_footer ≢ lower quoted_footer.owner
unfolding lower
quoted_no_owner e = cc ((eq_iff (sender_of quoted_footer) (lower quoted_footer.owner)).1 e)

quoted_no_peer : sender_of quoted_footer ≢ other_of quoted_footer
unfolding lower
quoted_no_peer e = cc ((eq_iff (sender_of quoted_footer) (other_of quoted_footer)).1 e)

own_footer_unrouted_example : (route_for_recipient quoted_footer).action ≢ route
own_footer_unrouted_example =
    own_footer_unrouted quoted_footer "o/r#42" "architect" "t-1" refl refl refl
      (refl, (refl, (refl, (refl, (refl, (refl, tt))))))
      (refl, (refl, (refl, (refl, (refl, (refl, (refl, (refl, (refl, tt)))))))))
      (refl, (refl, (refl, tt))) refl refl quoted_no_owner quoted_no_peer
