-- ===== src/SearchTags.antt =====
-- weasyl/searchtag.py and weasyl/blocktag.py: the tags of posts, who may set and suggest them, and
-- who blocks them. Tables has the state, Names the ids of tag names.
pub mod Tables
pub mod Names
pub mod Patterns
pub mod Associate
pub mod Tokens
pub mod Suggestions
pub mod Restrictions
