-- ===== src/Tests/Thinking.antt =====
-- The parser of proxy/thinking_tags.go on a block whose end has not come.
use kiro_go_plus.Base.{◌≡◌, refl, true, false, some, [], ◌∷◌}
use kiro_go_plus.Base.Text.{codes}
use kiro_go_plus.ThinkingTags.{
  ThinkingTagParser, source_unknown, visible, begins, ends, tag_block, index, next_thinking_tag,
  append_thinking, inside, hold_open, feed_loop, feed,
}
use kiro_go_plus.ThinkingTags.Flush.{Returns, feed-Returns}

abbrev parser : ThinkingTagParser
parser = record {
  buffer = [];
  in_thinking = false;
  close_tag = [];
  drop_thinking = false;
  thinking_started = false;
  source = source_unknown;
}

feed-Returns_example : Returns true (feed (codes "a<think>b") true parser)
feed-Returns_example = feed-Returns (codes "a<think>b") true parser

block_is_closed :
    feed (codes "a<think>b") true parser
    ≡ some (
      record parser { source = tag_block },
      record { kind = visible; text = codes "a" }
          ∷ record { kind = begins; text = codes "b" }
          ∷ record { kind = ends; text = [] }
          ∷ [],
    )
unfolding index next_thinking_tag append_thinking inside hold_open feed_loop feed
block_is_closed = refl
