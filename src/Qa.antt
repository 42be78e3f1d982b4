-- ===== src/Qa.antt =====
-- law_agent/review/qa_store.py: conversations of questions and answers, and the runs that
-- investigate them.
--
-- Records has the dictionaries as records, Changes what the methods make of one conversation, Store
-- the class InMemoryQAStore with the methods of QAStore over it, Events one event for each method
-- that changes the store. The other files are named for what they prove.
pub mod Records
pub mod Changes
pub mod Store
pub mod Events
pub mod Single
pub mod Ended
pub mod Kept
pub mod Refused
